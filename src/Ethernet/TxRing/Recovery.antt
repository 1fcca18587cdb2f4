-- ===== src/Ethernet/TxRing/Recovery.antt =====
-- A ring that is not full, once the DMA is done (src/stm32h7/Ethernetif.cpp).
use lwip_server.Base.{
  ℕ, zero, suc, ◌≤◌, ◌<◌, ◌≡◌, ◌≢◌, refl, sym, ap₂, true, false, ◌==◌, List, [], length, get_or,
  some, arith, Bool-cases, inl, inr,
}
use lwip_server.Ethernet.TxDescriptor.{owned_by_dma}
use lwip_server.Ethernet.TxRing.{
  TxRing, Packet, Err, err_ok, err_if, Effect, tx_desc_count, blank, oldest, give_back,
  low_level_output, release_tx_buffers,
}
use lwip_server.Ethernet.TxRing.Valid.{
  IsValid, under_way, payloads, pending, give_back-IsValid, pending-give_back,
}
use lwip_server.Ethernet.TxRing.Output.{Sends, low_level_output-Sends}
use lwip_server.Ethernet.TxRing.Ownership.{place}
use lwip_server.Ethernet.TxRing.Earned.{place-give_back}

-- No descriptor under way is the DMA's.
abbrev pub AllBack : TxRing → Type 0
AllBack r =
    (k : ℕ) → k < under_way r → owned_by_dma (get_or r.descriptors (place r k) blank) ≡ false

abbrev pub emptied : TxRing → TxRing
emptied r = record r { available_size = tx_desc_count; unavailable_index = r.available_index }

module _ (r : TxRing) (v : IsValid r) (idle : under_way r ≡ 0) where
  met : (r.available_index == r.unavailable_index) ≡ true
  met = ground (arith, v.joined, v.size_in)

  pending-idle : pending r ≡ []
  unfolding pending payloads
  pending-idle = rw idle refl

  emptied-idle : r ≡ emptied r
  emptied-idle =
      let all : r.available_size ≡ tx_desc_count = omega (arith, v.size_in) in
      let same : r.unavailable_index ≡ r.available_index = ground (arith, v.joined) in
      ap₂ (λ a u. record r { available_size = a; unavailable_index = u }) all same

module _ (r : TxRing) (v : IsValid r) (room : 0 < r.available_size) (busy : under_way r ≢ 0) where
  distinct : (r.available_index == r.unavailable_index) ≡ false
  distinct = ground (arith, v.joined, v.size_in)

  oldest_back : AllBack r → owned_by_dma (oldest r) ≡ false
  unfolding oldest
  oldest_back b =
      let e : place r 0 ≡ r.unavailable_index = omega (arith, v.unavailable_in) in
      rw e at (b 0 (omega arith))

  give_back-AllBack : AllBack r → AllBack (give_back r)
  unfolding give_back
  give_back-AllBack b k h = rw (place-give_back r k v) (b (suc k) (omega (arith, v.size_in)))

  one_back :
      (taken : r.available_size < tx_desc_count) (fuel : ℕ)
      → under_way r < suc fuel
      → (0 < (give_back r).available_size)
        × (under_way (give_back r) < fuel)
        × (emptied (give_back r) ≡ emptied r)
  unfolding give_back
  one_back taken fuel h = (omega arith, omega arith, refl)

release_all :
    (fuel : ℕ) (r : TxRing)
    → IsValid r
    → 0 < r.available_size
    → under_way r < fuel
    → AllBack r
    → release_tx_buffers fuel r ≡ some (pending r, emptied r)
unfolding release_tx_buffers
release_all zero r v room h b = absurd (omega arith)
release_all (suc fuel) r v room h b = elim (Bool-cases (under_way r == 0)) [
  | inl e ↦
      let idle : under_way r ≡ 0 = ground arith in
      rw (met r v idle)
        (ap₂ (λ x y. some (x, y)) (sym (pending-idle r v idle)) (emptied-idle r v idle))
  | inr e ↦
      let busy : under_way r ≢ 0 = ground arith in
      rw (distinct r v room busy, oldest_back r v room busy b)
        (let taken : r.available_size < tx_desc_count = omega arith in
          let (room1, less, same) = one_back r v room busy taken fuel h in
          let all =
            release_all fuel (give_back r) (give_back-IsValid r v taken) room1 less
              (give_back-AllBack r v room busy b) in
          rw all (ap₂ (λ x y. some (x, y)) (pending-give_back r v taken) same))
]

accepted :
    (p : Packet) (r : TxRing) (o : Err × List Effect × TxRing)
    → length p.bufs ≤ tx_desc_count
    → tx_desc_count ≤ r.available_size
    → Sends p r o
    → o.0 ≡ err_ok
accepted p r (err_ok, effects, r') short free h = refl
accepted p r (err_if, effects, r') short free h = absurd (omega (arith, h.0))

emptied-IsValid : (r : TxRing) → IsValid r → IsValid (emptied r)
emptied-IsValid r v = record {
  table = v.table;
  available_in = v.available_in;
  unavailable_in = v.available_in;
  size_in = omega arith;
  joined = omega (arith, v.available_in);
}

-- As long as one descriptor is free the driver recovers: in a valid ring with a free descriptor,
-- once none of the descriptors under way is the DMA's, one release frees all packets that were
-- pending, in order, and leaves all descriptors free, and then each packet of one to four buffers is
-- accepted.
pub release-accepts :
    (p : Packet) (r : TxRing)
    → IsValid r
    → 0 < r.available_size
    → AllBack r
    → p.address ≢ 0
    → 0 < length p.bufs
    → length p.bufs ≤ tx_desc_count
    → (release_tx_buffers 5 r ≡ some (pending r, emptied r))
      × ((low_level_output p (emptied r)).0 ≡ err_ok)
release-accepts p r v room b nz pos short = (
  release_all 5 r v room (omega arith) b,
  accepted p (emptied r) _ short (omega arith)
      (low_level_output-Sends p (emptied r) (emptied-IsValid r v) nz pos),
)
