-- ===== src/Ethernet/Reception.antt =====
-- Reception: the pool of receive buffers, the chain of a packet's buffers, and the input loop of
-- src/stm32h7/Ethernetif.cpp. The HAL, lwIP and its memory pool are a parameter. They call the
-- functions below back, and lwIP sends answers, so they take and return the driver's state too.
pub mod Pool
pub mod Lengths
mod Tests
use lwip_server.Base.{
  ℕ, zero, suc, ◌+◌, ◌%◌, ◌^◌, ◌==◌, Bool, true, false, Option, none, some, List, [], ◌∷◌,
  if◌then◌else◌,
}
use lwip_server.Lwip.{Err, is_ok}
use lwip_server.Ethernet.TxRing.{TxRing, release_tx_buffers}

-- The driver's state: `sRxBuffersAvailable`, and the ring of transmit descriptors.
pub record Rx : Type 0 where
  pub rx_buffers_available : Bool
  pub ring : TxRing

pub record RxApi : Type 1 where
  pub World : Type 0
  pub mempool_alloc : World → Option ℕ × World
  pub mempool_free : World → ℕ → World
  -- `pbuf_alloced_custom`, with `pbuf_free_custom` as the function that frees.
  pub alloced_custom : World → ℕ → World
  pub read_data : Rx → World → Option ℕ × (Rx × World)
  pub input : ℕ → Rx → World → Err × (Rx × World)
  pub pbuf_free : ℕ → Rx → World → Rx × World

-- The fields of a packet buffer that the link callback sets.
pub record Pbuf : Type 0 where
  pub next : Option ℕ
  pub len : ℕ
  pub tot_len : ℕ

-- The buffers by address, and the start and the end of the packet that is being put together.
pub record Chain : Type 0 where
  pub pbufs : ℕ → Pbuf
  pub start : Option ℕ
  pub end : Option ℕ

abbrev pub put : (ℕ → Pbuf) → ℕ → Pbuf → ℕ → Pbuf
put h a p b = if a == b then p else h b

-- The loop over the chain, on fuel: at most as many rounds as it has buffers.
unfoldable pub add_length : ℕ → Option ℕ → ℕ → (ℕ → Pbuf) → ℕ → Pbuf
add_length zero o n h = h
add_length (suc fuel) none n h = h
add_length (suc fuel) (some a) n h =
    let p = record (h a) { tot_len = ((h a).tot_len + n) % 2 ^ 16 } in
    add_length fuel p.next n (put h a p)

abbrev pub link_last : Option ℕ → ℕ → (ℕ → Pbuf) → ℕ → Pbuf
link_last none a h = h
link_last (some e) a h = put h e (record (h e) { next = some a })

abbrev pub first_of : Option ℕ → ℕ → Option ℕ
first_of none a = some a
first_of (some s) a = some s

abbrev pub is_empty : Option ℕ → Bool
is_empty none = true
is_empty (some _) = false

-- `HAL_ETH_RxLinkCallback`, for a chain of fewer than `fuel` buffers.
unfoldable pub rx_link_callback : ℕ → ℕ → ℕ → Chain → Chain
unfolding add_length
rx_link_callback fuel a length c =
    let h = put c.pbufs a (record { next = none; len = length; tot_len = 0 }) in
    let h1 = (if is_empty c.start then h else link_last c.end a h) in
    let start = first_of c.start a in
    record { pbufs = add_length fuel start length h1; start = start; end = some a }

-- The buffers that `releaseTxBuffers` frees, and the ring after.
abbrev pub released : TxRing → List ℕ × TxRing
released ring = elim (release_tx_buffers 5 ring) [ none ↦ ([], ring) | some r ↦ r ]

module _ (api : RxApi) where
  open api use {World}

  unfoldable pub allocated : Option ℕ → Rx → World → Option ℕ × (Rx × World)
  allocated none rx w = (none, (record rx { rx_buffers_available = false }, w))
  allocated (some a) rx w = (some a, (rx, api.alloced_custom w a))

  -- `HAL_ETH_RxAllocateCallback`: the buffer's address, or null.
  unfoldable pub rx_allocate_callback : Rx → World → Option ℕ × (Rx × World)
  unfolding allocated
  rx_allocate_callback rx w = let (a, w1) = api.mempool_alloc w in allocated a rx w1

  unfoldable pub pbuf_free_custom : ℕ → Rx → World → Rx × World
  pbuf_free_custom a rx w = (record rx { rx_buffers_available = true }, api.mempool_free w a)

  unfoldable pub low_level_input : Rx → World → Option ℕ × (Rx × World)
  low_level_input rx w = if rx.rx_buffers_available then api.read_data rx w else (none, (rx, w))

  unfoldable pub deliver : ℕ → Rx → World → Rx × World
  deliver p rx w =
      let (err, t) = api.input p rx w in if is_ok err then t else api.pbuf_free p t.0 t.1

  abbrev on_packet : Option ℕ → Rx × World → (Rx × World → Rx × World) → Rx × World
  on_packet none t rest = t
  on_packet (some p) t rest = rest (deliver p t.0 t.1)

  -- The loop of `ethernetif_input`, over at most `n` packets.
  unfoldable pub input_loop : ℕ → Rx → World → Rx × World
  unfolding low_level_input deliver
  input_loop zero rx w = (rx, w)
  input_loop (suc n) rx w =
      let (p, t) = low_level_input rx w in on_packet p t (λ u. input_loop n u.0 u.1)

  unfoldable pub free_all : List ℕ → Rx → World → Rx × World
  free_all [] rx w = (rx, w)
  free_all (p ∷ ps) rx w = let t = api.pbuf_free p rx w in free_all ps t.0 t.1

  unfoldable pub ethernetif_input : ℕ → Rx → World → Rx × World
  unfolding free_all input_loop
  ethernetif_input n rx w =
      let (freed, ring) = released rx.ring in
      let t = free_all freed (record rx { ring = ring }) w in input_loop n t.0 t.1
