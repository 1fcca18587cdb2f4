-- ===== src/Base/Bits.antt =====
-- Single bits of a word: what `x & mask` and `x | mask` say about them.
use Prim.Native.Nat.{min, max, bit_and, bit_or, digits, bit_and-bitwise, bit_or-bitwise}
use native.Mathlib.Nat.{pow-suc}
use lwip_server.Base.{
  ℕ, zero, suc, ◌+◌, ◌*◌, ◌/◌, ◌%◌, ◌^◌, ◌≤◌, ◌<◌, ◌≡◌, refl, ap, ◌∙◌, arith, Bool, true, ◌&&◌,
}

-- The bit of weight 2 ^ k.
abbrev pub bit : ℕ → ℕ → ℕ
bit x zero = x % 2
bit x (suc k) = bit (x / 2) k

pub bit-lt : (x k : ℕ) → bit x k < 2
bit-lt x zero = omega arith
bit-lt x (suc k) = bit-lt (x / 2) k

-- Two amounts of fuel that both suffice give the same digits.
module _ (rest : ℕ → ℕ) (pair : ℕ → ℕ → ℕ) where
  enough : (m n x y : ℕ) → x ≤ m → x ≤ n → digits rest pair m x y ≡ digits rest pair n x y
  enough zero zero x y p q = refl
  enough (suc m) zero zero y p q = refl
  enough (suc m) zero (suc x) y p q = absurd (omega arith)
  enough zero (suc n) zero y p q = refl
  enough zero (suc n) (suc x) y p q = absurd (omega arith)
  enough (suc m) (suc n) zero y p q = refl
  enough (suc m) (suc n) (suc x) y p q =
      ap (λ (t : ℕ). t * 2 + pair (suc x % 2) (y % 2))
        (enough m n (suc x / 2) (y / 2) (omega arith) (omega arith))

pub bit_and_halves : (x y : ℕ) → bit_and x y ≡ bit_and (x / 2) (y / 2) * 2 + min (x % 2) (y % 2)
bit_and_halves zero y =
    let e : bit_and 0 y ≡ 0 = bit_and-bitwise 0 y in
    let e' : bit_and 0 (y / 2) ≡ 0 = bit_and-bitwise 0 (y / 2) in omega arith
bit_and_halves (suc x) y = omega (
  arith,
  bit_and-bitwise (suc x) y,
  bit_and-bitwise (suc x / 2) (y / 2),
  enough (λ _. 0) min x (suc x / 2) (suc x / 2) (y / 2) (omega arith) (omega arith),
)

pub bit_or_halves : (x y : ℕ) → bit_or x y ≡ bit_or (x / 2) (y / 2) * 2 + max (x % 2) (y % 2)
bit_or_halves zero y =
    let e : bit_or 0 y ≡ y = bit_or-bitwise 0 y in
    let e' : bit_or 0 (y / 2) ≡ y / 2 = bit_or-bitwise 0 (y / 2) in omega arith
bit_or_halves (suc x) y = omega (
  arith,
  bit_or-bitwise (suc x) y,
  bit_or-bitwise (suc x / 2) (y / 2),
  enough (λ r. r) max x (suc x / 2) (suc x / 2) (y / 2) (omega arith) (omega arith),
)

-- `&` and `|` work bit by bit.
pub bit-bit_and : (k x y : ℕ) → bit (bit_and x y) k ≡ min (bit x k) (bit y k)
bit-bit_and zero x y = omega (arith, bit_and_halves x y)
bit-bit_and (suc k) x y =
    let h : bit_and x y / 2 ≡ bit_and (x / 2) (y / 2) = omega (arith, bit_and_halves x y) in
    ap (λ (t : ℕ). bit t k) h ∙ bit-bit_and k (x / 2) (y / 2)

pub bit-bit_or : (k x y : ℕ) → bit (bit_or x y) k ≡ max (bit x k) (bit y k)
bit-bit_or zero x y = omega (arith, bit_or_halves x y)
bit-bit_or (suc k) x y =
    let h : bit_or x y / 2 ≡ bit_or (x / 2) (y / 2) = omega (arith, bit_or_halves x y) in
    ap (λ (t : ℕ). bit t k) h ∙ bit-bit_or k (x / 2) (y / 2)

pub bit_and-zero : (k x : ℕ) → x < 2 ^ k → bit_and x 0 ≡ 0
bit_and-zero zero zero h = refl
bit_and-zero zero (suc x) h = absurd (omega arith)
bit_and-zero (suc k) x h =
    omega (arith, bit_and_halves x 0, bit_and-zero k (x / 2) (omega (arith, pow-suc 2 k)))

-- `x & (1 << k)` is the bit in its place.
pub bit_and-two_pow : (w k x : ℕ) → x < 2 ^ w → bit_and x (2 ^ k) ≡ bit x k * 2 ^ k
bit_and-two_pow w zero x h = omega (arith, bit_and_halves x 1, bit_and-zero w (x / 2) (omega arith))
bit_and-two_pow w (suc k) x h =
    let e : 2 ^ suc k / 2 ≡ 2 ^ k = omega (arith, pow-suc 2 k) in
    let e' : 2 ^ suc k % 2 ≡ 0 = omega (arith, pow-suc 2 k) in
    let s : bit_and x (2 ^ suc k) ≡ bit_and (x / 2) (2 ^ k) * 2 + 0 =
      bit_and_halves x (2 ^ suc k) ∙ rw (e, e') (omega arith) in
    omega (
      arith,
      s,
      bit_and-two_pow w k (x / 2) (omega arith),
      ap (λ (t : ℕ). bit (x / 2) k * t) (pow-suc 2 k),
    )

pub bit_or-lt : (w x y : ℕ) → x < 2 ^ w → y < 2 ^ w → bit_or x y < 2 ^ w
bit_or-lt zero zero zero p q = omega (arith, bit_or_halves 0 0)
bit_or-lt zero zero (suc y) p q = absurd (omega arith)
bit_or-lt zero (suc x) y p q = absurd (omega arith)
bit_or-lt (suc w) x y p q = omega (
  arith,
  bit_or_halves x y,
  pow-suc 2 w,
  bit_or-lt w (x / 2) (y / 2) (omega (arith, pow-suc 2 w)) (omega (arith, pow-suc 2 w)),
)

bit_or-zero : (w x : ℕ) → x < 2 ^ w → bit_or x 0 ≡ x
bit_or-zero zero zero p = refl
bit_or-zero zero (suc x) p = absurd (omega arith)
bit_or-zero (suc w) x p =
    omega (arith, bit_or_halves x 0, bit_or-zero w (x / 2) (omega (arith, pow-suc 2 w)))

-- Fields that do not overlap are joined as by a sum.
pub bit_or-shift : (w k x y : ℕ) → x < 2 ^ w → y < 2 ^ k → bit_or (x * 2 ^ k) y ≡ x * 2 ^ k + y
bit_or-shift w zero x y p q =
    let e : y ≡ 0 = omega arith in
    let e' : x * 2 ^ 0 ≡ x = omega arith in rw (e, e') (omega (arith, bit_or-zero w x p))
bit_or-shift w (suc k) x y p q =
    let e : x * 2 ^ suc k ≡ x * 2 ^ k * 2 = omega (arith, ap (λ (t : ℕ). x * t) (pow-suc 2 k)) in
    let half : x * 2 ^ suc k / 2 ≡ x * 2 ^ k = omega arith in
    rw e (
      omega (
        arith,
        bit_or_halves (x * 2 ^ k * 2) y,
        rw e at (ap (λ (t : ℕ). bit_or t (y / 2)) half),
        bit_or-shift w k x (y / 2) p (omega (arith, pow-suc 2 k)),
      ))

-- A test that holds of all numbers below a bound, by evaluation.
unfoldable pub all_below : ℕ → (ℕ → Bool) → Bool
all_below zero p = true
all_below (suc n) p = p n && all_below n p

pub all_below-eq : (n : ℕ) (p : ℕ → Bool) (x : ℕ) → all_below n p ≡ true → x < n → p x ≡ true
unfolding all_below
all_below-eq zero p x h lt = absurd (omega arith)
all_below-eq (suc n) p x h lt = ground (arith, all_below-eq n p x)

pub bit-zero : (k : ℕ) → bit 0 k ≡ 0
bit-zero zero = refl
bit-zero (suc k) = bit-zero k
