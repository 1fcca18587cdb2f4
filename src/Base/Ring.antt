-- ===== src/Base/Ring.antt =====
-- A memory that is written round its end, seen from the place that is written next.
use native.Mathlib.Nat.{mod-eq_of_lt, mod-add-mod, mod-eq-sub-mod}
use lwip_server.Base.{
  ℕ, zero, suc, ◌+◌, ◌-◌, ◌%◌, ◌≤◌, ◌<◌, ◌≡◌, refl, ap, ap₂, sym, ◌∙◌, List, [], ◌∷◌, ◌++◌, arith,
  length, set, drop, length-set, length-drop, drop-append, drop-drop,
}
use mathlib.Core.List.{append_assoc, append-nil}
use lwip_server.Base.Window.{window, window-split, window-push, length-window}

round : (cap t k : ℕ) → t < cap → k ≡ t + cap → k % cap ≡ t
round cap t k h e =
    let le : cap ≤ k = omega arith in
    let sub : k - cap ≡ t = omega arith in mod-eq-sub-mod le ∙ rw sub (mod-eq_of_lt h)

-- Two parts of a round together.
both : (cap t i j : ℕ) → t < cap → i + j ≡ cap → ((t + i) % cap + j) % cap ≡ t
both cap t i j h e = rw mod-add-mod (round cap t (t + i + j) h (omega arith))

drop-front {ℓ} : {A : Type ℓ} (xs ys : List A) → drop (length xs) (xs ++ ys) ≡ ys
drop-front [] ys = refl
drop-front (x ∷ xs) ys = drop-front xs ys

module _ {ℓ} {A : Type ℓ} (d : A) (cap : ℕ) where
  pub write_round : List A → ℕ → List A → List A
  write_round [] place m = m
  write_round (v ∷ vs) place m = write_round vs ((place + 1) % cap) (set m place v)

  -- The memory from the place that is written next, which holds the oldest item.
  pub full : List A → ℕ → List A
  full m place = window d m cap place cap

  pub length-write_round :
      (vs : List A) (place : ℕ) (m : List A) → length (write_round vs place m) ≡ length m
  unfolding write_round
  length-write_round [] place m = refl
  length-write_round (v ∷ vs) place m =
      length-write_round vs ((place + 1) % cap) (set m place v) ∙ length-set m place v

module _ {ℓ} {A : Type ℓ} (d : A) where
  pub length-full : (cap : ℕ) (m : List A) (place : ℕ) → length (full d cap m place) ≡ cap
  unfolding full
  length-full cap m place = length-window d m cap place cap

  -- One item.
  full-push :
      (cap : ℕ) (m : List A) (place : ℕ) (v : A)
      → length m ≡ cap
      → place < cap
      → full d cap (set m place v) ((place + 1) % cap) ≡ drop 1 (full d cap m place) ++ v ∷ []
  unfolding full
  full-push zero m place v e h = absurd (omega arith)
  full-push (suc c) m place v e h =
      let next = (place + 1) % suc c in
      let one : c + 1 ≡ suc c = omega arith in
      rw one at (
        window-push d v m (suc c) c next place e (omega arith) (omega arith)
          (sym (both (suc c) place 1 c h (omega arith))))

  pub full-write_round :
      (cap : ℕ) (vs m : List A) (place : ℕ)
      → length m ≡ cap
      → place < cap
      → length vs ≤ cap
      → full d cap (write_round d cap vs place m) ((place + length vs) % cap)
        ≡ drop (length vs) (full d cap m place) ++ vs
  unfolding write_round
  full-write_round cap [] m place e h le =
      let same : (place + 0) % cap ≡ place = ap (λ k. k % cap) (omega arith) ∙ mod-eq_of_lt h in
      rw (same, append-nil) refl
  full-write_round cap (v ∷ vs) m place e h le =
      let next = (place + 1) % cap in
      let n = length vs in
      let old = full d cap m place in
      let at : (place + suc n) % cap ≡ (next + n) % cap =
        rw mod-add-mod (ap (λ k. k % cap) (omega arith)) in
      let fits : n ≤ length (drop 1 old) =
        omega (arith, length-drop 1 old, length-full cap m place) in
      let bound : next < cap = omega arith in
      let plus : 1 + n ≡ suc n = omega arith in
      ap (full d cap (write_round d cap vs next (set m place v))) at
      ∙ full-write_round cap vs (set m place v) next (length-set m place v ∙ e) bound (omega arith)
      ∙ rw
          (full-push cap m place v e h, drop-append n (drop 1 old) (v ∷ []) fits, drop-drop n 1 old)
          (append_assoc (drop (1 + n) old) (v ∷ []) vs ∙ ap (λ k. drop k old ++ v ∷ vs) plus)

  -- A run that ends at the place that is written next holds the latest items.
  pub window-full :
      (cap : ℕ) (m : List A) (h s t : ℕ)
      → h < cap
      → s ≤ cap
      → t < cap
      → (h + s) % cap ≡ t
      → window d m cap h s ≡ drop (cap - s) (full d cap m t)
  unfolding full
  window-full cap m h s t hh hs ht e =
      let k = cap - s in
      let at : (t + k) % cap ≡ h = rw (← e) (both cap h s k hh (omega arith)) in
      let size : k + s ≡ cap = omega arith in
      let front = drop-front (window d m cap t k) (window d m cap h s) in
      let parts : window d m cap t k ++ window d m cap h s ≡ window d m cap t cap =
        ap (λ z. window d m cap t k ++ window d m cap z s) (sym at)
        ∙ window-split d m cap k s t ht
        ∙ ap (window d m cap t) size in
      sym front ∙ ap₂ drop (length-window d m cap t k) parts
