-- ===== src/Ethernet/Reception/Pool.antt =====
-- The flag `sRxBuffersAvailable` and the pool of receive buffers (src/stm32h7/Ethernetif.cpp).
use lwip_server.Base.{
  ℕ, zero, suc, ◌≤◌, ◌<◌, ◌≡◌, ◌≢◌, ◌∙◌, refl, ◌⊎◌, inl, inr, Bool, true, false, Option, none, some,
  List, [], ◌∷◌, Bool-cases, Option-cases, if◌then◌else◌, arith, length,
}
use lwip_server.Lwip.{is_ok}
use lwip_server.Ethernet.TxRing.{
  TxRing, Packet, Err, err_ok, err_if, Effect, low_level_output, release_tx_buffers,
}
use lwip_server.Ethernet.TxRing.Valid.{IsValid}
use lwip_server.Ethernet.TxRing.Output.{Sends, low_level_output-Sends}
use lwip_server.Ethernet.TxRing.Release.{Released, release_tx_buffers-Released}
use lwip_server.Ethernet.Reception.{
  Rx, RxApi, released, allocated, rx_allocate_callback, pbuf_free_custom, low_level_input, deliver,
  input_loop, free_all, ethernetif_input,
}

-- The buffers that are left in the pool.
pub record Counted (api : RxApi) : Type 0 where
  pub available : api.World → ℕ
  pub alloc_none :
      (w : api.World) → (api.mempool_alloc w).0 ≡ none → available (api.mempool_alloc w).1 ≡ 0
  pub alloc_fewer : (w : api.World) → available (api.mempool_alloc w).1 ≤ available w
  pub alloced_same : (w : api.World) (a : ℕ) → available (api.alloced_custom w a) ≡ available w

sent-IsValid :
    (p : Packet) (r : TxRing) (o : Err × List Effect × TxRing)
    → IsValid r
    → Sends p r o
    → IsValid o.2
sent-IsValid p r (err_ok, effects, s) v h = h.2
sent-IsValid p r (err_if, effects, s) v h = rw h.2 v

released-IsValid :
    (r : TxRing) (o : Option (List ℕ × TxRing))
    → Released r o
    → IsValid (elim o as (λ _. List ℕ × TxRing) [ none ↦ ([], r) | some t ↦ t ]).1
released-IsValid r none h = absurd h
released-IsValid r (some (freed, s)) h = h.0

module _ (api : RxApi) (pool : Counted api) where
  open api use {World}

  -- What the HAL and lwIP may do to the pool and to the ring: only call the driver's functions.
  pub data Step : Rx × World → Rx × World → Type 0 where
    allocates : (rx : Rx) (w : World) → Step (rx, w) (rx_allocate_callback api rx w).1
    frees : (a : ℕ) (rx : Rx) (w : World) → Step (rx, w) (pbuf_free_custom api a rx w)
    sends :
        (p : Packet) (rx : Rx) (w v : World)
        → p.address ≢ 0
        → 0 < length p.bufs
        → pool.available v ≡ pool.available w
        → Step (rx, w) (record rx { ring = (low_level_output p rx.ring).2 }, v)
    others : (rx : Rx) (w v : World) → pool.available v ≡ pool.available w → Step (rx, w) (rx, v)

  pub data Steps : Rx × World → Rx × World → Type 0 where
    none_yet : {t : Rx × World} → Steps t t
    after : {t u v : Rx × World} → Steps t u → Step u v → Steps t v

  -- The behaviour of lwIP and the HAL that the driver relies on.
  pub record CallsBack : Type 0 where
    pub read_steps : (rx : Rx) (w : World) → Steps (rx, w) (api.read_data rx w).1
    pub input_steps : (p : ℕ) (rx : Rx) (w : World) → Steps (rx, w) (api.input p rx w).1
    pub free_steps : (p : ℕ) (rx : Rx) (w : World) → Steps (rx, w) (api.pbuf_free p rx w)

  -- Reception is stopped only while the pool is empty.
  abbrev pub Open : Rx × World → Type 0
  Open t = (t.0.rx_buffers_available ≡ true) ⊎ (pool.available t.1 ≡ 0)

  allocated-Open :
      (o : Option ℕ) (rx : Rx) (w v : World)
      → (o ≡ none → pool.available v ≡ 0)
      → pool.available v ≤ pool.available w
      → Open (rx, w)
      → Open (allocated api o rx v).1
  unfolding allocated
  allocated-Open none rx w v e le h = inr (e refl)
  allocated-Open (some a) rx w v e le (inl h) = inl h
  allocated-Open (some a) rx w v e le (inr h) = inr (omega (arith, h, pool.alloced_same v a))

  same-Open :
      (b : Bool) (w v : World)
      → pool.available v ≡ pool.available w
      → (b ≡ true) ⊎ (pool.available w ≡ 0)
      → (b ≡ true) ⊎ (pool.available v ≡ 0)
  same-Open b w v e (inl h) = inl h
  same-Open b w v e (inr h) = inr (e ∙ h)

  allocated-IsValid :
      (o : Option ℕ) (rx : Rx) (v : World)
      → IsValid rx.ring
      → IsValid (allocated api o rx v).1.0.ring
  unfolding allocated
  allocated-IsValid none rx v h = h
  allocated-IsValid (some a) rx v h = h

  -- And the ring of transmit descriptors is valid.
  abbrev pub Sound : Rx × World → Type 0
  Sound t = Open t × IsValid t.0.ring

  Step-Sound : {t u : Rx × World} → Step t u → Sound t → Sound u
  unfolding rx_allocate_callback pbuf_free_custom
  Step-Sound (allocates rx w) h = (
    allocated-Open (api.mempool_alloc w).0 rx w (api.mempool_alloc w).1 (pool.alloc_none w)
        (pool.alloc_fewer w) h.0,
    allocated-IsValid (api.mempool_alloc w).0 rx (api.mempool_alloc w).1 h.1,
  )
  Step-Sound (frees a rx w) h = (inl refl, h.1)
  Step-Sound (sends p rx w v nz pos e) h = (
    same-Open (rx.rx_buffers_available) w v e h.0,
    sent-IsValid p rx.ring (low_level_output p rx.ring) h.1
        (low_level_output-Sends p rx.ring h.1 nz pos),
  )
  Step-Sound (others rx w v e) h = (same-Open (rx.rx_buffers_available) w v e h.0, h.1)

  Steps-Sound : {t u : Rx × World} → Steps t u → Sound t → Sound u
  Steps-Sound none_yet h = h
  Steps-Sound (after r s) h = Step-Sound s (Steps-Sound r h)

  either :
      (b : Bool) (x y : Option ℕ × (Rx × World))
      → Sound x.1
      → Sound y.1
      → Sound (if b then x else y).1
  either true x y h k = h
  either false x y h k = k

  module _ (calls : CallsBack) where
    low_level_input-Sound :
        (rx : Rx) (w : World) → Sound (rx, w) → Sound (low_level_input api rx w).1
    unfolding low_level_input
    low_level_input-Sound rx w h =
        either rx.rx_buffers_available (api.read_data rx w) (none, (rx, w))
          (Steps-Sound (calls.read_steps rx w) h) h

    deliver-Sound : (p : ℕ) (rx : Rx) (w : World) → Sound (rx, w) → Sound (deliver api p rx w)
    unfolding deliver
    deliver-Sound p rx w h =
        let given = Steps-Sound (calls.input_steps p rx w) h in
        elim (Bool-cases (is_ok (api.input p rx w).0)) [
          | inl e ↦ rw e given
          | inr e ↦ rw e (Steps-Sound (calls.free_steps p _ _) given)
        ]

    input_loop-Sound : (n : ℕ) (rx : Rx) (w : World) → Sound (rx, w) → Sound (input_loop api n rx w)
    unfolding input_loop
    input_loop-Sound zero rx w h = h
    input_loop-Sound (suc n) rx w h = elim (Option-cases (low_level_input api rx w).0) [
      | inl e ↦ rw e (low_level_input-Sound rx w h)
      | inr (p, e) ↦
          let t = (low_level_input api rx w).1 in
          let u = deliver api p t.0 t.1 in
          rw e (input_loop-Sound n u.0 u.1 (deliver-Sound p t.0 t.1 (low_level_input-Sound rx w h)))
    ]

    free_all-Sound :
        (ps : List ℕ) (rx : Rx) (w : World) → Sound (rx, w) → Sound (free_all api ps rx w)
    unfolding free_all
    free_all-Sound [] rx w h = h
    free_all-Sound (p ∷ ps) rx w h =
        let t = api.pbuf_free p rx w in
        free_all-Sound ps t.0 t.1 (Steps-Sound (calls.free_steps p rx w) h)

    -- However many packets it reads, whether lwIP takes them or not, and whatever answers lwIP sends
    -- meanwhile: the input function stops reception only while the pool of receive buffers is empty,
    -- and it keeps the ring of transmit descriptors valid.
    pub ethernetif_input-Sound :
        (n : ℕ) (rx : Rx) (w : World) → Sound (rx, w) → Sound (ethernetif_input api n rx w)
    unfolding ethernetif_input
    ethernetif_input-Sound n rx w h =
        let (freed, ring) = released rx.ring in
        let rx1 = record rx { ring = ring } in
        let t = free_all api freed rx1 w in
        input_loop-Sound n t.0 t.1 (
          free_all-Sound freed rx1 w (
            h.0,
            released-IsValid rx.ring (release_tx_buffers 5 rx.ring)
                (release_tx_buffers-Released 5 rx.ring h.1 (omega arith)),
          ))
