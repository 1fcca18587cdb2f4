-- ===== src/Chip/System.antt =====
-- `System_Init` of src/stm32h7/System.cpp: the registers that it sets. What the vendor's header
-- names, and whether the build has the FPU, are parameters.
pub mod Control
use lwip_server.Base.{ℕ, ◌+◌, ◌*◌, ◌^◌, Bool, true, false, if◌then◌else◌, ltb}
use Prim.Native.Nat.{bit_and, bit_or}

pub record Registers : Type 0 where
  pub cpacr : ℕ
  pub cr : ℕ
  pub cfgr : ℕ
  pub d1cfgr : ℕ
  pub d2cfgr : ℕ
  pub d3cfgr : ℕ
  pub pllckselr : ℕ
  pub pllcfgr : ℕ
  pub pll1divr : ℕ
  pub pll1fracr : ℕ
  pub pll2divr : ℕ
  pub pll2fracr : ℕ
  pub pll3divr : ℕ
  pub pll3fracr : ℕ
  pub cier : ℕ
  pub idcode : ℕ
  -- The word at 0x51008108.
  pub axi_target7 : ℕ
  pub btcr0 : ℕ
  pub vtor : ℕ
  pub d2sram1_clock : Bool
  pub d2sram2_clock : Bool

pub record Vendor : Type 0 where
  pub has_fpu : Bool
  pub rcc_cr_hsion : ℕ
  pub flash_bank1_base : ℕ

abbrev pub vect_tab_offset : ℕ
vect_tab_offset = 0

abbrev fpu_settings : Vendor → Registers → Registers
fpu_settings v r =
    if v.has_fpu then record r { cpacr = bit_or r.cpacr (bit_or (3 * 2 ^ 20) (3 * 2 ^ 22)) } else r

-- The clock control back to its defaults.
pub reset_clocks : Vendor → Registers → Registers
reset_clocks v r =
    let r1 = record r { cr = bit_or r.cr v.rcc_cr_hsion; cfgr = 0 } in
    let r2 = record r1 { cr = bit_and r1.cr 0xEAF6ED7F } in
    let r3 = record r2 {
      d1cfgr = 0;
      d2cfgr = 0;
      d3cfgr = 0;
      pllckselr = 0;
      pllcfgr = 0;
      pll1divr = 0;
      pll1fracr = 0;
      pll2divr = 0;
      pll2fracr = 0;
      pll3divr = 0;
      pll3fracr = 0;
    } in
    record r3 { cr = bit_and r3.cr 0xFFFBFFFF; cier = 0 }

abbrev axi_issuing : Registers → Registers
axi_issuing r =
    if ltb (bit_and r.idcode 0xFFFF0000) 0x20000000 then record r { axi_target7 = 1 } else r

pub system_init : Vendor → Registers → Registers
unfolding reset_clocks
system_init v r =
    let r1 = axi_issuing (reset_clocks v (fpu_settings v r)) in
    record r1 {
      btcr0 = 0x30D2;
      vtor = bit_or v.flash_bank1_base vect_tab_offset;
      d2sram1_clock = true;
      d2sram2_clock = true;
    }
