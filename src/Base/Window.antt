-- ===== src/Base/Window.antt =====
-- The items that a run of places holds, in a memory that is read round its end.
use native.Mathlib.Decide.{dec_lt}
use native.Mathlib.Nat.{mod-eq_of_lt, mod-add-mod, mod-eq-sub-mod, add-zero}
use lwip_server.Base.{
  ℕ, zero, suc, ◌+◌, ◌-◌, ◌%◌, ◌≤◌, ◌<◌, ◌≡◌, ◌≢◌, refl, ap, ap₂, ◌∙◌, List, [], ◌∷◌, ◌++◌, arith,
  length, get_or, set, take, drop,
}

module _ {ℓ} {A : Type ℓ} (d : A) (memory : List A) (cap : ℕ) where
  -- The `n` items from place `h` on.
  abbrev pub window : ℕ → ℕ → List A
  window h zero = []
  window h (suc n) = get_or memory h d ∷ window ((h + 1) % cap) n

  pub length-window : (h n : ℕ) → length (window h n) ≡ n
  length-window h zero = refl
  length-window h (suc n) = ap suc (length-window ((h + 1) % cap) n)

  -- A run is a run and the run that follows it.
  pub window-split :
      (m n h : ℕ) → h < cap → window h m ++ window ((h + m) % cap) n ≡ window h (m + n)
  window-split zero n h hh = let z : 0 + n ≡ n = omega arith in rw (add-zero, mod-eq_of_lt hh, z)
  window-split (suc m) n h hh =
      let s : suc m + n ≡ suc (m + n) = omega arith in
      let e : (h + suc m) % cap ≡ ((h + 1) % cap + m) % cap =
        rw mod-add-mod (ap (λ k. k % cap) (omega arith)) in
      rw (s, e) (ap (λ t. get_or memory h d ∷ t) (window-split m n ((h + 1) % cap) (omega arith)))

module _ {ℓ} {A : Type ℓ} where
  drop-cons :
      (d : A) (xs : List A) (i : ℕ) → i < length xs → drop i xs ≡ get_or xs i d ∷ drop (suc i) xs
  drop-cons d [] i h = absurd (omega arith)
  drop-cons d (x ∷ xs) zero h = refl
  drop-cons d (x ∷ xs) (suc i) h = drop-cons d xs i (omega arith)

  -- A run that does not pass the end of the memory lies side by side in it.
  pub window-take-drop :
      (d : A) (memory : List A) (cap n h : ℕ)
      → length memory ≡ cap
      → h + n ≤ cap
      → window d memory cap h n ≡ take n (drop h memory)
  window-take-drop d memory cap zero h e le = refl
  window-take-drop d memory cap (suc zero) h e le = rw (drop-cons d memory h (omega arith))
  window-take-drop d memory cap (suc (suc n)) h e le =
      let next : (h + 1) % cap ≡ suc h =
        omega (arith, mod-eq_of_lt {n = h + 1} {m = cap} (omega arith)) in
      rw (drop-cons d memory h (omega arith), next)
        (ap (λ t. get_or memory h d ∷ t)
          (window-take-drop d memory cap (suc n) (suc h) e (omega arith)))

  get_or-set_self : (xs : List A) (i : ℕ) (v d : A) → i < length xs → get_or (set xs i v) i d ≡ v
  get_or-set_self [] i v d h = absurd (omega arith)
  get_or-set_self (x ∷ xs) zero v d h = refl
  get_or-set_self (x ∷ xs) (suc i) v d h = get_or-set_self xs i v d (omega arith)

  get_or-set_ne :
      (xs : List A) (i j : ℕ) (v d : A) → i ≢ j → get_or (set xs i v) j d ≡ get_or xs j d
  get_or-set_ne [] i j v d h = refl
  get_or-set_ne (x ∷ xs) zero zero v d h = absurd (h refl)
  get_or-set_ne (x ∷ xs) zero (suc j) v d h = refl
  get_or-set_ne (x ∷ xs) (suc i) zero v d h = refl
  get_or-set_ne (x ∷ xs) (suc i) (suc j) v d h = get_or-set_ne xs i j v d (λ e. h (ap suc e))

-- Less than a round away is another place.
round-ne : (cap h k : ℕ) → h < cap → 0 < k → k < cap → (h + k) % cap ≢ h
round-ne cap h k hh p q = elim (dec_lt (h + k) cap) [
  | yes lt ↦ omega (arith, mod-eq_of_lt lt)
  | no ge ↦ omega (
    arith,
    mod-eq-sub-mod {n = h + k} {m = cap} (omega arith),
    mod-eq_of_lt {n = h + k - cap} {m = cap} (omega arith),
  )
]

module _ {ℓ} {A : Type ℓ} (d v : A) (memory : List A) (cap : ℕ) where
  -- A write beyond a run leaves it alone.
  window-set_beyond :
      (n k h i : ℕ)
      → h < cap
      → n + k < cap
      → i ≡ (h + n + k) % cap
      → window d (set memory i v) cap h n ≡ window d memory cap h n
  window-set_beyond zero k h i hh lt e = refl
  window-set_beyond (suc n) k h i hh lt e =
      ap₂ ◌∷◌
        (get_or-set_ne memory i h v d
          (rw (e, regroup) (round-ne cap h (suc n + k) hh (omega arith) (omega arith))))
        (window-set_beyond n k ((h + 1) % cap) i (omega arith) (omega arith) (e ∙ shift))
    where
      regroup : h + suc n + k ≡ h + (suc n + k)
      regroup = omega arith

      shift : (h + suc n + k) % cap ≡ ((h + 1) % cap + n + k) % cap
      shift =
          let e : (h + 1) % cap + n + k ≡ (h + 1) % cap + (n + k) = omega arith in
          rw (e, mod-add-mod) (ap (λ t. t % cap) (omega arith))

  -- A write just past a run extends it.
  pub window-push :
      (n h i : ℕ)
      → length memory ≡ cap
      → h < cap
      → n < cap
      → i ≡ (h + n) % cap
      → window d (set memory i v) cap h (n + 1) ≡ window d memory cap h n ++ v ∷ []
  window-push n h i e hh lt at =
      rw (← window-split d (set memory i v) cap n 1 h hh, ← at)
        (ap₂ ◌++◌ (window-set_beyond n 0 h i hh (omega arith) (rw add-zero at))
          (ap (λ (t : A). t ∷ []) (get_or-set_self memory i v d (omega arith))))
