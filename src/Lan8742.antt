-- ===== src/Lan8742.antt =====
-- The driver of the ethernet PHY, include/lwipserver/drivers/Lan8742.h.
pub mod Link
pub mod Address
pub mod Reset
mod Tests
use Prim.Native.Nat.{bit_and}
use lwip_server.Base.{
  ℕ, zero, suc, ◌+◌, ◌-◌, ◌%◌, ◌^◌, ◌≡◌, Bool, true, false, not, ◌&&◌, Option, none, some, ltb,
  ◌==◌, if◌then◌else◌,
}
use lwip_server.Board.{Board}

abbrev pub initialization_wait_time_ms : ℕ
initialization_wait_time_ms = 2000

abbrev pub max_dev_addr : ℕ
max_dev_addr = 31

abbrev pub reset_timeout_ms : ℕ
reset_timeout_ms = 500

-- Register addresses.
abbrev pub addr_bcr : ℕ
addr_bcr = 0x00

abbrev pub addr_bsr : ℕ
addr_bsr = 0x01

abbrev pub addr_smr : ℕ
addr_smr = 0x12

abbrev pub addr_physcsr : ℕ
addr_physcsr = 0x1F

-- Field masks.
abbrev pub mask_bcr_softreset : ℕ
mask_bcr_softreset = 0x8000

abbrev pub mask_bcr_speed_select : ℕ
mask_bcr_speed_select = 0x2000

abbrev pub mask_bcr_autonego_en : ℕ
mask_bcr_autonego_en = 0x1000

abbrev pub mask_bcr_duplex_mode : ℕ
mask_bcr_duplex_mode = 0x0100

abbrev pub mask_bsr_link_status : ℕ
mask_bsr_link_status = 0x0004

abbrev pub mask_smr_physaddr : ℕ
mask_smr_physaddr = 0x1F

abbrev pub mask_physcsr_autonego_done : ℕ
mask_physcsr_autonego_done = 0x1000

abbrev pub mask_physcsr_hcdspeedmask : ℕ
mask_physcsr_hcdspeedmask = 0x001C

abbrev pub mask_physcsr_10bt_hd : ℕ
mask_physcsr_10bt_hd = 0x0004

abbrev pub mask_physcsr_10bt_fd : ℕ
mask_physcsr_10bt_fd = 0x0014

abbrev pub mask_physcsr_100btx_hd : ℕ
mask_physcsr_100btx_hd = 0x0008

abbrev pub mask_physcsr_100btx_fd : ℕ
mask_physcsr_100btx_fd = 0x0018

pub data Status : Type 0 where
  ok read_error write_error address_error reset_timeout link_down autonego_not_done : Status
  full_duplex_100_mbit half_duplex_100_mbit full_duplex_10_mbit half_duplex_10_mbit : Status

-- `(v & mask) == mask`.
abbrev has_all : ℕ → ℕ → Bool
has_all v mask = bit_and v mask == mask

-- Speed and duplex as the control register sets them by hand.
pub manual_link : ℕ → Status
manual_link bcr =
    if has_all bcr mask_bcr_speed_select && has_all bcr mask_bcr_duplex_mode
    then full_duplex_100_mbit
    else if has_all bcr mask_bcr_speed_select
    then half_duplex_100_mbit
    else if has_all bcr mask_bcr_duplex_mode
    then full_duplex_10_mbit
    else half_duplex_10_mbit

-- Speed and duplex as the two ends agreed on them.
pub negotiated_link : ℕ → Status
negotiated_link physcsr =
    if bit_and physcsr mask_physcsr_autonego_done == 0
    then autonego_not_done
    else if bit_and physcsr mask_physcsr_hcdspeedmask == mask_physcsr_100btx_fd
    then full_duplex_100_mbit
    else if bit_and physcsr mask_physcsr_hcdspeedmask == mask_physcsr_100btx_hd
    then half_duplex_100_mbit
    else if bit_and physcsr mask_physcsr_hcdspeedmask == mask_physcsr_10bt_fd
    then full_duplex_10_mbit
    else half_duplex_10_mbit

module _ (b : Board) where
  open b use {World, read_reg, write_reg, tick, wait}

  -- Whether the device at `addr` answers with its own address, and the state after the read.
  unfoldable pub probe : World → ℕ → Bool × World
  probe w addr =
      let (val, w') = read_reg w addr addr_smr in
      (val.0 && (bit_and val.1 mask_smr_physaddr == addr), w')

  -- The search over `addr`, with the number of addresses left; the last one ends it.
  pub find_address : ℕ → ℕ → World → Option ℕ × World
  find_address zero addr w = (none, w)
  find_address (suc left) addr w =
      let (answers, w') = probe w addr in
      let rest = find_address left (addr + 1) w' in
      if answers then (some addr, w') else if addr == max_dev_addr then (none, w') else rest

  -- The polling of the reset bit. `none` is running out of fuel, which `Reset` excludes.
  pub await_reset : ℕ → ℕ → ℕ → World → Option Status × World
  await_reset zero start dev w = (none, w)
  await_reset (suc fuel) start dev w =
      let (val, w') = read_reg w dev addr_bcr in
      let (now, w'') = tick w' in
      let again = await_reset fuel start dev w'' in
      if not val.0
      then (some read_error, w')
      else if bit_and val.1 mask_bcr_softreset == 0
      then (some ok, w')
      else if ltb reset_timeout_ms ((now + 2 ^ 32 - start) % 2 ^ 32)
      then (some reset_timeout, w'')
      else again

  -- The part of `init` after the polling: only a finished reset waits for the chip.
  settle : Option Status × World → Option Status × World
  settle (some ok, w) = (some ok, wait w initialization_wait_time_ms)
  settle r = r

  pub reset : ℕ → ℕ → World → Option Status × World
  unfolding await_reset settle
  reset fuel dev w =
      let (written, w1) = write_reg w dev addr_bcr mask_bcr_softreset in
      let (start, w2) = tick w1 in
      if written then settle (await_reset fuel start dev w2) else (some write_error, w1)

  init_at : ℕ → ℕ → Option ℕ × World → Option Status × ℕ × World
  unfolding reset
  init_at fuel old (none, w) = (some address_error, old, w)
  init_at fuel old (some dev, w) = let (s, w') = reset fuel dev w in (s, dev, w')

  -- `init`, from the address that the driver holds: the status, the address and the state after.
  pub init : ℕ → ℕ → World → Option Status × ℕ × World
  unfolding find_address init_at
  init fuel old w = init_at fuel old (find_address 32 0 w)

  -- `getLinkState`.
  pub get_link_state : ℕ → World → Status × World
  get_link_state dev w =
      let (bsr, w1) = read_reg w dev addr_bsr in
      let (bcr, w2) = read_reg w1 dev addr_bcr in
      let (physcsr, w3) = read_reg w2 dev addr_physcsr in
      if not bsr.0
      then (read_error, w1)
      else if bit_and bsr.1 mask_bsr_link_status == 0
      then (link_down, w1)
      else if not bcr.0
      then (read_error, w2)
      else if not (has_all bcr.1 mask_bcr_autonego_en)
      then (manual_link bcr.1, w2)
      else if not physcsr.0
      then (read_error, w3)
      else (negotiated_link physcsr.1, w3)
