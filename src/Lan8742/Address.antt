-- ===== src/Lan8742/Address.antt =====
-- The search for the address of the PHY, and which device `init` then resets.
use lwip_server.Base.{
  ℕ, zero, suc, ◌+◌, ◌≤◌, ◌<◌, ◌≡◌, Bool, true, false, Option, none, some, arith, Bool-cases, inl,
  inr, ◌==◌,
}
use native.Mathlib.Decide.{ℕ_discrete}
use lwip_server.Board.{Board}
use lwip_server.Lan8742.{Status, address_error, max_dev_addr, probe, find_address}

module _ (answers : ℕ → Bool) where
  -- The outcome of a search from `from` on: the first address that answers, or none of them does.
  abbrev pub First : ℕ → Option ℕ → Type 0
  First from none = (c : ℕ) → from ≤ c → c ≤ max_dev_addr → answers c ≡ false
  First from (some a) =
      (from ≤ a)
      × (a ≤ max_dev_addr)
      × (answers a ≡ true)
      × ((c : ℕ) → from ≤ c → c < a → answers c ≡ false)

  First-next : (from : ℕ) (r : Option ℕ) → answers from ≡ false → First (from + 1) r → First from r
  First-next from none no_answer h =
      λ c p q. elim (ℕ_discrete from c) [ yes e ↦ rw (← e) no_answer | no ne ↦ h c (omega arith) q ]
  First-next from (some a) no_answer h = (
    omega arith,
    h.1,
    h.2,
    λ c p q. elim (ℕ_discrete from c) [
      | yes e ↦ rw (← e) no_answer
      | no ne ↦ h.3 c (omega arith) q
    ],
  )

module _ (b : Board) (answers : ℕ → Bool)
    (steady : (w : b.World) (a : ℕ) → (probe b w a).0 ≡ answers a) where
  find_address-First_from :
      (left from : ℕ) (w : b.World)
      → from + left ≡ 32
      → 0 < left
      → First answers from (find_address b left from w).0
  unfolding find_address
  find_address-First_from zero from w e h = absurd (omega arith)
  find_address-First_from (suc left) from w e h = elim (Bool-cases (answers from)) [
    | inl hit ↦
        rw (steady w from, hit) (omega arith, omega arith, hit, λ c p q. absurd (omega arith))
    | inr miss ↦
        rw (steady w from, miss)
          (elim (Bool-cases (from == max_dev_addr)) [
            | inl end ↦ rw end (First-next answers from none miss (λ c p q. absurd (ground arith)))
            | inr more ↦ rw more (
                First-next answers from _ miss (
                  find_address-First_from left (from + 1) (probe b w from).1 (omega arith)
                    (ground arith)))
          ])
  ]

  -- On a bus that answers the same way each time, the search returns the first address of 0 to 31
  -- that answers, and none only if none of them does.
  pub find_address-First : (w : b.World) → First answers 0 (find_address b 32 0 w).0
  find_address-First w = find_address-First_from 32 0 w (omega arith) (omega arith)

-- The status and the address that `init` ends with, by the address at which the PHY answers.
abbrev pub Addressed : ℕ → Option ℕ → Option Status → ℕ → Type 0
Addressed old none status dev = (status ≡ some address_error) × (dev ≡ old)
Addressed old (some a) status dev = dev ≡ a
