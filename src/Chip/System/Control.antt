-- ===== src/Chip/System/Control.antt =====
-- The clock control register after `System_Init` (src/stm32h7/System.cpp), bit by bit.
use Prim.Native.Nat.{bit_and, bit_or}
use lwip_server.Base.{
  ℕ, zero, suc, ◌<◌, refl, ◌∙◌, min, true, ==_iff, ◌≡◌, ◌||◌, Bool, arith, ◌==◌, if◌then◌else◌,
}
use lwip_server.Base.Bits.{all_below, all_below-eq, bit, bit-lt, bit-zero, bit-bit_and, bit-bit_or}
use lwip_server.Chip.System.{Registers, Vendor, system_init}

-- The oscillators and PLLs, in the order of the reference manual: CSION, CSIKERON, HSI48ON, HSEON,
-- HSEBYP, HSECSSON, PLL1ON, PLL2ON and PLL3ON.
abbrev pub is_off : ℕ → Bool
is_off k =
    k == 7 || k == 9 || k == 12 || k == 16 || k == 18 || k == 19 || k == 24 || k == 26 || k == 28

abbrev masks : ℕ → ℕ
masks k = min (bit 0xEAF6ED7F k) (bit 0xFFFBFFFF k)

masks-table : all_below 32 (λ k. masks k == (if is_off k then 0 else 1)) ≡ true
unfolding all_below
masks-table = refl

masks-is_off : (k : ℕ) → k < 32 → masks k ≡ (if is_off k then 0 else 1)
masks-is_off k lt = (==_iff _ _).0 (all_below-eq 32 _ k masks-table lt)

bit-one : (k : ℕ) → bit 1 k ≡ (if k == 0 then 1 else 0)
bit-one zero = refl
bit-one (suc k) = bit-zero k ∙ ground arith

written :
    (v : Vendor) (r : Registers)
    → (system_init v r).cr ≡ bit_and (bit_and (bit_or r.cr v.rcc_cr_hsion) 0xEAF6ED7F) 0xFFFBFFFF
unfolding system_init
written v r = ground arith

-- After `System_Init`, whatever the 32 bits of the clock control register held: the internal
-- oscillator is on, the other oscillators and the PLLs are off, and no other bit has changed, where
-- HSION is the lowest bit.
system_init-cr :
    (v : Vendor) (r : Registers) (k : ℕ)
    → v.rcc_cr_hsion ≡ 1
    → k < 32
    → bit (system_init v r).cr k ≡ (if is_off k then 0 else if k == 0 then 1 else bit r.cr k)
system_init-cr v r k h lt =
    let cr1 = bit_or r.cr v.rcc_cr_hsion in
    let cr2 = bit_and cr1 0xEAF6ED7F in
    let on : bit v.rcc_cr_hsion k ≡ (if k == 0 then 1 else 0) = rw h (bit-one k) in
    rw (written v r) (
      ground (
        arith,
        bit-bit_and k cr2 0xFFFBFFFF,
        bit-bit_and k cr1 0xEAF6ED7F,
        bit-bit_or k r.cr v.rcc_cr_hsion,
        on,
        masks-is_off k lt,
        bit-lt r.cr k,
      ))
