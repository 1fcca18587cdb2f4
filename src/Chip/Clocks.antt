-- ===== src/Chip/Clocks.antt =====
-- `Base::systemClockConfig` of src/stm32h7/Base.cpp.
pub mod Frequencies
use lwip_server.Base.{ℕ, true, false, [], ◌∷◌}
use lwip_server.Chip.Hal.{
  Hal, Outcome, done, OscInit, ClkInit, config_supply, voltage_scale1, voltage_ready, d2sram3_clock,
  osc_config, clock_config, csi_enable, syscfg_clock, compensation_cell, and_then, perform, must,
  await,
}

abbrev pub osc_init : OscInit
osc_init = record {
  hse_on = true;
  hsi_on = false;
  csi_on = false;
  pll = record {
    pll_on = true;
    from_hse = true;
    pllm = 5;
    plln = 160;
    pllfracn = 0;
    pllp = 2;
    pllr = 2;
    pllq = 4;
    vco_wide = true;
    vci_range = 2;
  };
}

abbrev pub clk_init : ClkInit
clk_init = record {
  from_pll = true;
  sysclk_divider = 1;
  ahb_divider = 2;
  apb3_divider = 2;
  apb1_divider = 2;
  apb2_divider = 2;
  apb4_divider = 2;
}

abbrev pub flash_latency : ℕ
flash_latency = 4

module _ (hal : Hal) where
  open hal use {World}

  -- From the oscillators on.
  unfoldable pub start_clocks : World → Outcome World
  start_clocks w =
      and_then (must hal (osc_config osc_init) (perform hal (d2sram3_clock ∷ []) w)) (λ w1.
        and_then (must hal (clock_config clk_init flash_latency) w1)
          (λ w2. done (perform hal (csi_enable ∷ syscfg_clock ∷ compensation_cell ∷ []) w2)))

  -- The wait for the voltage reads its flag at most `fuel` times.
  unfoldable pub system_clock_config : ℕ → World → Outcome World
  unfolding start_clocks
  system_clock_config fuel w =
      and_then (await hal fuel voltage_ready (perform hal (config_supply ∷ voltage_scale1 ∷ []) w))
        start_clocks
