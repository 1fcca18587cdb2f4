-- ===== src/Lan8742/Link.antt =====
-- What `getLinkState` reports, read off the bits of the registers.
use Prim.Native.Nat.{bit_and}
use lwip_server.Base.{ℕ, ◌*◌, ◌/◌, ◌%◌, ◌^◌, ◌<◌, ◌≡◌, true, arith, ◌==◌, if◌then◌else◌}
use lwip_server.Base.Bits.{bit, bit-lt, bit_and_halves, bit_and-zero, bit_and-two_pow}
use lwip_server.Board.{Board}
use lwip_server.Lan8742.{
  Status, link_down, autonego_not_done, full_duplex_100_mbit, half_duplex_100_mbit,
  full_duplex_10_mbit, half_duplex_10_mbit, addr_bsr, addr_bcr, addr_physcsr, manual_link,
  negotiated_link, get_link_state,
}

-- A link by its speed (1 for 100 Mbit) and its mode (1 for full duplex).
abbrev pub link_of : ℕ → ℕ → Status
link_of fast full =
    if fast == 0
    then (if full == 0 then half_duplex_10_mbit else full_duplex_10_mbit)
    else (if full == 0 then half_duplex_100_mbit else full_duplex_100_mbit)

-- The speed field of the special control register.
abbrev pub agreed : ℕ → Status
agreed field =
    if field == 2
    then half_duplex_100_mbit
    else if field == 6
    then full_duplex_100_mbit
    else if field == 5
    then full_duplex_10_mbit
    else half_duplex_10_mbit

-- The link as the datasheet's fields give it: bit 2 of the status register is the link, bits 12, 13
-- and 8 of the control register are negotiation, speed and duplex, bits 12 and 4:2 of the special
-- register are the end of the negotiation and its result.
abbrev pub decode : ℕ → ℕ → ℕ → Status
decode bsr bcr physcsr =
    if bit bsr 2 == 0
    then link_down
    else if bit bcr 12 == 0
    then link_of (bit bcr 13) (bit bcr 8)
    else if bit physcsr 12 == 0
    then autonego_not_done
    else agreed (physcsr / 4 % 8)

manual_link_lem : (v : ℕ) → v < 2 ^ 32 → manual_link v ≡ link_of (bit v 13) (bit v 8)
unfolding manual_link
manual_link_lem v h =
    ground (arith, bit_and-two_pow 32 13 v h, bit_and-two_pow 32 8 v h, bit-lt v 13, bit-lt v 8)

bit_and_speed : (v : ℕ) → v < 2 ^ 32 → bit_and v 0x1C ≡ v / 4 % 8 * 4
bit_and_speed v h = omega (
  arith,
  bit_and_halves v 0x1C,
  bit_and_halves (v / 2) 0xE,
  bit_and_halves (v / 2 / 2) 0x7,
  bit_and_halves (v / 2 / 2 / 2) 0x3,
  bit_and_halves (v / 2 / 2 / 2 / 2) 0x1,
  bit_and-zero 32 (v / 2 / 2 / 2 / 2 / 2) (omega arith),
)

negotiated_link_lem :
    (v : ℕ)
    → v < 2 ^ 32
    → negotiated_link v ≡ (if bit v 12 == 0 then autonego_not_done else agreed (v / 4 % 8))
unfolding negotiated_link
negotiated_link_lem v h = ground (arith, bit_and-two_pow 32 12 v h, bit_and_speed v h, bit-lt v 12)

module _ (b : Board) (dev : ℕ) where
  open b use {World, read_reg}

  -- Every read of the device goes through and gives a 32-bit value.
  abbrev pub Readable : Type 0
  Readable =
      (w : World) (reg : ℕ)
      → ((read_reg w dev reg).0.0 ≡ true) × ((read_reg w dev reg).0.1 < 2 ^ 32)

  abbrev after_one : World → World
  after_one w = (read_reg w dev addr_bsr).1

  abbrev after_two : World → World
  after_two w = (read_reg (after_one w) dev addr_bcr).1

  -- From a device that can be read, the driver reports what the fields of its registers say.
  pub get_link_state-decode :
      (w : World)
      → Readable
      → (get_link_state b dev w).0
        ≡ decode
            (read_reg w dev addr_bsr).0.1
            (read_reg (after_one w) dev addr_bcr).0.1
            (read_reg (after_two w) dev addr_physcsr).0.1
  unfolding get_link_state
  get_link_state-decode w r = ground (
    arith,
    r w addr_bsr,
    r w1 addr_bcr,
    r w2 addr_physcsr,
    bit_and-two_pow 32 2 bsr (r w addr_bsr).1,
    bit_and-two_pow 32 12 bcr (r w1 addr_bcr).1,
    bit-lt bsr 2,
    bit-lt bcr 12,
    manual_link_lem bcr (r w1 addr_bcr).1,
    negotiated_link_lem physcsr (r w2 addr_physcsr).1,
  )
    where
      w1 : World
      w1 = after_one w

      w2 : World
      w2 = after_two w

      bsr : ℕ
      bsr = (read_reg w dev addr_bsr).0.1

      bcr : ℕ
      bcr = (read_reg w1 dev addr_bcr).0.1

      physcsr : ℕ
      physcsr = (read_reg w2 dev addr_physcsr).0.1

-- What no read of a register changes, the driver leaves as it is.
pub get_link_state_keeps :
    (b : Board) (A : Type 0) (f : b.World → A)
    → ((w : b.World) (dev reg : ℕ) → f (b.read_reg w dev reg).1 ≡ f w)
    → (dev : ℕ) (w : b.World) → f (get_link_state b dev w).1 ≡ f w
unfolding get_link_state
get_link_state_keeps b A f keeps dev w =
    let w1 = (b.read_reg w dev addr_bsr).1 in
    let w2 = (b.read_reg w1 dev addr_bcr).1 in
    ground (arith, keeps w dev addr_bsr, keeps w1 dev addr_bcr, keeps w2 dev addr_physcsr)
