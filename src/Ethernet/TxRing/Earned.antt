-- ===== src/Ethernet/TxRing/Earned.antt =====
-- What a release gives back, against the descriptors that the DMA has written back
-- (src/stm32h7/Ethernetif.cpp).
use mathlib.Core.Option
use lwip_server.Base.{
  ℕ, zero, suc, ◌-◌, ◌≤◌, ◌<◌, ◌≡◌, refl, ap, ◌∙◌, Bool, true, false, ◌==◌, List, [], ◌++◌, Option,
  none, some, arith, Bool-cases, inl, inr,
}
use lwip_server.Base.Window.{window}
use lwip_server.Ethernet.TxDescriptor.{owned_by_dma}
use lwip_server.Ethernet.TxRing.{
  TxRing, tx_desc_count, blank, held, oldest, give_back, release_tx_buffers,
}
use lwip_server.Ethernet.TxRing.Valid.{IsValid, under_way, payloads, give_back-IsValid}
use lwip_server.Ethernet.TxRing.Release.{taken_of_ne, fewer}
use lwip_server.Ethernet.TxRing.Ownership.{place, IsSafe}

pub place-give_back : (r : TxRing) (k : ℕ) → IsValid r → place (give_back r) k ≡ place r (suc k)
unfolding give_back
place-give_back r k v = ground (arith, v.unavailable_in)

module _ (back : ℕ → Bool) (r : TxRing) (s : IsSafe back r)
    (taken : r.available_size < tx_desc_count) where
  give_back-IsSafe : IsSafe back (give_back r)
  unfolding give_back
  give_back-IsSafe = record {
    valid = unfold give_back in give_back-IsValid r s.valid taken;
    narrow = s.narrow;
    watched = λ k h e.
        rw (place-give_back r k s.valid) (
          s.watched (suc k) (omega (arith, s.valid.size_in))
            (rw (← place-give_back r k s.valid) e));
  }

  oldest_returned : owned_by_dma (oldest r) ≡ false → back (place r 0) ≡ true
  unfolding oldest
  oldest_returned free = elim (Bool-cases (back (place r 0))) [
    | inl done ↦ done
    | inr open_ ↦ ground (arith, s.watched 0 (omega arith) open_, s.valid.unavailable_in)
  ]

-- The outcome of a release: every descriptor that it gives back was written back by the DMA, and the
-- packets freed are those of these descriptors.
abbrev pub Earned : (ℕ → Bool) → TxRing → Option (List ℕ × TxRing) → Type 0
Earned back r none = ⊥
Earned back r (some (freed, r')) =
    IsSafe back r'
    × (r.available_size ≤ r'.available_size)
    × ((k : ℕ) → k < r'.available_size - r.available_size → back (place r k) ≡ true)
    × (freed
        ≡ payloads (
            window blank r.descriptors tx_desc_count r.unavailable_index
              (r'.available_size - r.available_size)))

stop : (back : ℕ → Bool) (r : TxRing) → IsSafe back r → Earned back r (some ([], r))
unfolding payloads
stop back r s =
    let e : r.available_size - r.available_size ≡ 0 = omega arith in
    rw e (s, omega arith, λ k h. absurd (omega arith), refl)

module _ (back : ℕ → Bool) (r : TxRing) (s : IsSafe back r)
    (taken : r.available_size < tx_desc_count) (free : owned_by_dma (oldest r) ≡ false) where
  each_returned :
      (n : ℕ)
      → ((k : ℕ) → k < n → back (place (give_back r) k) ≡ true)
      → (k : ℕ) → k < suc n
      → back (place r k) ≡ true
  each_returned n h zero lt = oldest_returned back r s taken free
  each_returned n h (suc k) lt = rw (← place-give_back r k s.valid) (h k (omega arith))

  -- One round before the others.
  one_more :
      (o : Option (List ℕ × TxRing))
      → Earned back (give_back r) o
      → Earned back r (Option.map (λ (freed, r'). (held (oldest r) ++ freed, r')) o)
  unfolding give_back oldest payloads
  one_more none h = h
  one_more (some (freed, r')) h =
      let n = r'.available_size - (give_back r).available_size in
      let e : r'.available_size - r.available_size ≡ suc n = omega (arith, h.1, s.valid.size_in) in
      rw e (
        h.0,
        omega (arith, h.1, s.valid.size_in),
        each_returned n h.2,
        ap (λ t. held (oldest r) ++ t)
            (h.3
              ∙ ap (λ i. payloads (window blank r.descriptors tx_desc_count i n))
                  (ground (arith, s.valid.unavailable_in))),
      )

pub release_tx_buffers-Earned :
    (back : ℕ → Bool) (fuel : ℕ) (r : TxRing)
    → IsSafe back r
    → under_way r < fuel
    → Earned back r (release_tx_buffers fuel r)
unfolding release_tx_buffers
release_tx_buffers-Earned back zero r s h = absurd (omega arith)
release_tx_buffers-Earned back (suc fuel) r s h =
    elim (Bool-cases (r.available_index == r.unavailable_index)) [
      | inl met ↦ rw met (stop back r s)
      | inr apart ↦ rw apart (elim (Bool-cases (owned_by_dma (oldest r))) [
        | inl owned ↦ rw owned (stop back r s)
        | inr free ↦ rw free (
            let taken : r.available_size < tx_desc_count = taken_of_ne r s.valid (ground arith) in
            one_more back r s taken free (release_tx_buffers fuel (give_back r)) (
              release_tx_buffers-Earned back fuel (give_back r) (give_back-IsSafe back r s taken)
                (fewer r s.valid taken fuel h)))
      ])
    ]
