-- ===== src/Ethernet/TxRing/Release.antt =====
-- `releaseTxBuffers`: which packets it frees, and that it ends.
use mathlib.Core.List.{append_assoc}
use mathlib.Core.Option
use lwip_server.Base.{
  ℕ, zero, suc, ◌≤◌, ◌<◌, ◌≡◌, ◌≢◌, ◌⊎◌, inl, inr, refl, ap, ◌∙◌, true, Option, none, some, List,
  ◌++◌, arith, Bool-cases, ◌==◌,
}
use lwip_server.Ethernet.TxDescriptor.{owned_by_dma}
use lwip_server.Ethernet.TxRing.{TxRing, tx_desc_count, oldest, held, give_back, release_tx_buffers}
use lwip_server.Ethernet.TxRing.Valid.{
  IsValid, under_way, pending, give_back-IsValid, pending-give_back,
}

-- What the loop has done when it stops: it frees the oldest packets in the order in which they were
-- sent, each once, and stops at a descriptor that is the DMA's or where the two indices meet.
abbrev pub Released : TxRing → Option (List ℕ × TxRing) → Type 0
Released r none = ⊥
Released r (some (freed, r')) =
    IsValid r'
    × (freed ++ pending r' ≡ pending r)
    × (r.available_size ≤ r'.available_size)
    × (r'.descriptors ≡ r.descriptors)
    × ((r'.available_index ≡ r'.unavailable_index) ⊎ (owned_by_dma (oldest r') ≡ true))

after_one :
    (r : TxRing) (o : Option (List ℕ × TxRing))
    → IsValid r
    → r.available_size < tx_desc_count
    → Released (give_back r) o
    → Released r (Option.map (λ (freed, r'). (held (oldest r) ++ freed, r')) o)
unfolding give_back
after_one r (some (freed, r')) v taken h = (
  h.0,
  append_assoc (held (oldest r)) freed (pending r')
      ∙ ap (λ t. held (oldest r) ++ t) h.1
      ∙ pending-give_back r v taken,
  omega (arith, h.2, v.size_in),
  h.3,
  h.4,
)
after_one r none v taken h = h

module _ (r : TxRing) (v : IsValid r) where
  pub taken_of_ne : r.available_index ≢ r.unavailable_index → r.available_size < tx_desc_count
  taken_of_ne ne = ground (arith, v.joined, v.size_in)

  pub fewer :
      r.available_size < tx_desc_count
      → (fuel : ℕ) → under_way r < suc fuel
      → under_way (give_back r) < fuel
  unfolding give_back
  fewer taken fuel h = omega arith

-- From a valid ring, with more rounds than descriptors are under way, the release ends: what it
-- frees are the first of the buffers that were pending, in order, those that remain are still
-- pending in a valid ring, no descriptor is written, and it stops at the end of the ring or at a
-- descriptor that the DMA owns.
pub release_tx_buffers-Released :
    (fuel : ℕ) (r : TxRing)
    → IsValid r
    → under_way r < fuel
    → Released r (release_tx_buffers fuel r)
unfolding release_tx_buffers
release_tx_buffers-Released zero r v h = absurd (omega arith)
release_tx_buffers-Released (suc fuel) r v h =
    elim (Bool-cases (r.available_index == r.unavailable_index)) [
      | inl met ↦ rw met (v, refl, omega arith, refl, inl (ground arith))
      | inr apart ↦ rw apart (elim (Bool-cases (owned_by_dma (oldest r))) [
        | inl owned ↦ rw owned (v, refl, omega arith, refl, inr owned)
        | inr free ↦ rw free (
            let taken : r.available_size < tx_desc_count = taken_of_ne r v (ground arith) in
            after_one r (release_tx_buffers fuel (give_back r)) v taken (
              release_tx_buffers-Released fuel (give_back r) (give_back-IsValid r v taken)
                (fewer r v taken fuel h)))
      ])
    ]
