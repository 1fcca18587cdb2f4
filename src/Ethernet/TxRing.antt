-- ===== src/Ethernet/TxRing.antt =====
-- The ring of transmit descriptors: lowLevelOutput and releaseTxBuffers of
-- src/stm32h7/Ethernetif.cpp, with the three indices that they share. A `pbuf` chain is the list of
-- its payloads under the address of its first `pbuf`; what the code asks of lwIP and of the DMA is a
-- list of effects. The DMA itself is in `Lifetime`.
pub mod Valid
pub mod Output
pub mod Release
pub mod Lifetime
pub mod History
pub mod Ownership
pub mod Earned
pub mod WrittenBack
pub mod Recovery
mod Tests
use mathlib.Core.Option
use lwip_server.Base.{
  ℕ, zero, suc, ◌+◌, ◌-◌, ◌*◌, ◌%◌, ◌^◌, Bool, true, false, Option, none, some, List, [], ◌∷◌, ◌++◌,
  length, get_or, set, ltb, ◌==◌, if◌then◌else◌,
}
use lwip_server.Ethernet.TxDescriptor.{
  TxDescriptor, Span, no_span, set_buffers, owned_by_dma, set_owned, set_first_descriptor,
  set_last_descriptor, set_app_data,
}

-- ETH_TX_DESC_CNT of include/stm32h7xx_hal_conf.h.
abbrev pub tx_desc_count : ℕ
tx_desc_count = 4

abbrev pub blank : TxDescriptor
blank = record { desc0 = 0; desc1 = 0; desc2 = 0; desc3 = 0; app_data0 = 0; app_data1 = 0 }

pub record TxRing : Type 0 where
  pub descriptors : List TxDescriptor
  pub available_index : ℕ
  pub available_size : ℕ
  pub unavailable_index : ℕ

-- A chain of `pbuf`s.
pub record Packet : Type 0 where
  pub address : ℕ
  pub bufs : List Span

pub data Err : Type 0 where
  err_ok err_if : Err

pub data Effect : Type 0 where
  pbuf_ref : ℕ → Effect
  set_tail : ℕ → Effect

-- The walk along the chain: `bufs`, and `payloadLength`. None when the vector is full.
pub collect : List Span → List Span → ℕ → Option (List Span × ℕ)
collect [] bufs payload_length = some (bufs, payload_length)
collect (q ∷ qs) bufs payload_length =
    let rest = collect qs (bufs ++ q ∷ []) ((payload_length + q.size) % 2 ^ 32) in
    if length bufs == tx_desc_count then none else rest

-- One round of the loop over the descriptors: what it writes to the descriptor,
pub prepare : ℕ → ℕ → Bool → Bool → Span → Span → TxDescriptor → TxDescriptor
prepare address payload_length first last buf1 buf2 d =
    let d1 = if first then set_first_descriptor d else d in
    let d2 = set_buffers d1 buf1 buf2 payload_length in
    let d3 =
      if last then set_app_data (set_last_descriptor d2) address 0 else set_app_data d2 0 0 in
    set_owned d3

-- and how it moves on to the next.
pub take_descriptor : TxRing → (TxDescriptor → TxDescriptor) → TxRing
take_descriptor r f = record r {
  descriptors =
      set r.descriptors r.available_index (f (get_or r.descriptors r.available_index blank));
  available_index = if r.available_index + 1 == tx_desc_count then 0 else r.available_index + 1;
  available_size = (r.available_size + 2 ^ 32 - 1) % 2 ^ 32;
}

-- The loop, over the buffers from `bufIndex` on.
pub fill : ℕ → ℕ → Bool → List Span → TxRing → TxRing
fill address payload_length first [] r = r
fill address payload_length first (b ∷ []) r =
    take_descriptor r (prepare address payload_length first true b no_span)
fill address payload_length first (b ∷ c ∷ []) r =
    take_descriptor r (prepare address payload_length first true b c)
fill address payload_length first (b ∷ c ∷ d ∷ bufs) r =
    fill address payload_length false (d ∷ bufs)
      (take_descriptor r (prepare address payload_length first false b c))

send : Packet → Option (List Span × ℕ) → TxRing → Err × List Effect × TxRing
unfolding fill
send p none r = (err_if, [], r)
send p (some (bufs, payload_length)) r =
    if ltb (r.available_size * 2 % 2 ^ 32) (length bufs)
    then (err_if, [], r)
    else (let r' = fill p.address payload_length true bufs r in
        (err_ok, pbuf_ref p.address ∷ set_tail r'.available_index ∷ [], r'))

-- `lowLevelOutput`.
pub low_level_output : Packet → TxRing → Err × List Effect × TxRing
unfolding collect send
low_level_output p r = send p (collect p.bufs [] 0) r

-- The `pbuf` that the descriptor holds, if it holds one.
unfoldable pub held : TxDescriptor → List ℕ
held d = if d.app_data0 == 0 then [] else d.app_data0 ∷ []

pub oldest : TxRing → TxDescriptor
oldest r = get_or r.descriptors r.unavailable_index blank

pub give_back : TxRing → TxRing
give_back r = record r {
  available_size = (r.available_size + 1) % 2 ^ 32;
  unavailable_index =
      if r.unavailable_index + 1 == tx_desc_count then 0 else r.unavailable_index + 1;
}

-- `releaseTxBuffers`: the `pbuf`s freed, in order, and the ring after. `none` is running out of fuel,
-- which `Release` excludes.
pub release_tx_buffers : ℕ → TxRing → Option (List ℕ × TxRing)
unfolding give_back oldest held
release_tx_buffers zero r = none
release_tx_buffers (suc fuel) r =
    let rest = release_tx_buffers fuel (give_back r) in
    if r.available_index == r.unavailable_index
    then some ([], r)
    else if owned_by_dma (oldest r)
    then some ([], r)
    else Option.map (λ (freed, r'). (held (oldest r) ++ freed, r')) rest
