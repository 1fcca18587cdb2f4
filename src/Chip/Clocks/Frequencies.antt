-- ===== src/Chip/Clocks/Frequencies.antt =====
-- The clocks once `systemClockConfig` has run (src/stm32h7/Base.cpp).
use lwip_server.Base.{
  ℕ, ◌*◌, ◌/◌, ◌<◌, ◌≡◌, refl, ap, ◌∙◌, Bool, true, false, List, [], ◌∷◌, arith, ◌&&◌, not,
}
use lwip_server.Chip.Hal.{
  Hal, HalCall, OscInit, ClkInit, osc_config, clock_config, voltage_scale1, voltage_ready, perform,
  and_then, await, must, done, config_supply, d2sram3_clock, csi_enable, syscfg_clock,
  compensation_cell,
}
use lwip_server.Chip.Hal.Ends.{Ends, Ready, and_then-Ends, await-Ends, must-Ends}
use lwip_server.Chip.Clocks.{osc_init, clk_init, flash_latency, start_clocks, system_clock_config}

-- The frequencies in hertz: of the CPU, of the AXI and AHB buses, and of the four APB buses.
pub record Frequencies : Type 0 where
  pub sysclk : ℕ
  pub hclk : ℕ
  pub apb3 : ℕ
  pub apb1 : ℕ
  pub apb2 : ℕ
  pub apb4 : ℕ

-- The frequency of the PLL, by that of the crystal.
abbrev pub pll_hz : ℕ → OscInit → ℕ
pll_hz hse o = hse / o.pll.pllm * o.pll.plln / o.pll.pllp

abbrev pub divided : ℕ → ClkInit → Frequencies
divided pll c =
    let sysclk = pll / c.sysclk_divider in
    let hclk = sysclk / c.ahb_divider in
    record {
      sysclk = sysclk;
      hclk = hclk;
      apb3 = hclk / c.apb3_divider;
      apb1 = hclk / c.apb1_divider;
      apb2 = hclk / c.apb2_divider;
      apb4 = hclk / c.apb4_divider;
    }

abbrev pub sets_clocks : HalCall → Bool
sets_clocks (osc_config _) = true
sets_clocks (clock_config _ _) = true
sets_clocks _ = false

-- What the vendor documents of the calls that set the clocks up, for a PLL without a fraction and a
-- crystal of `hse` hertz.
pub record ClockLaws (hal : Hal) : Type 1 where
  pub hse : ℕ
  pub pll : hal.World → ℕ
  pub frequencies : hal.World → Frequencies
  pub osc_sets :
      (o : OscInit) (w : hal.World)
      → o.pll.pll_on ≡ true
      → o.pll.from_hse ≡ true
      → o.pll.pllfracn ≡ 0
      → (hal.run (osc_config o) w).0 ≡ true
      → pll (hal.run (osc_config o) w).1 ≡ pll_hz hse o
  pub clock_sets :
      (c : ClkInit) (n : ℕ) (w : hal.World)
      → c.from_pll ≡ true
      → (hal.run (clock_config c n) w).0 ≡ true
      → frequencies (hal.run (clock_config c n) w).1 ≡ divided (pll w) c
  pub keeps :
      (c : HalCall) (w : hal.World)
      → sets_clocks c ≡ false
      → frequencies (hal.run c w).1 ≡ frequencies w
  -- How often the flag of the voltage is read, at most, before it is set.
  pub reads : ℕ
  pub voltage_rises : (w : hal.World) → Ready hal reads voltage_ready (hal.run voltage_scale1 w).1

-- A crystal divided by 5, and 80, 40 and 20 times what that gives. With 25 MHz it is the list of the
-- comment in `systemClockConfig`: 400, 200 and 100 MHz.
abbrev pub listed : ℕ → Frequencies
listed hse = record {
  sysclk = hse / 5 * 80;
  hclk = hse / 5 * 40;
  apb3 = hse / 5 * 20;
  apb1 = hse / 5 * 20;
  apb2 = hse / 5 * 20;
  apb4 = hse / 5 * 20;
}

divided-listed : (hse : ℕ) → divided (pll_hz hse osc_init) clk_init ≡ listed hse
divided-listed hse =
    let cpu : pll_hz hse osc_init / clk_init.sysclk_divider ≡ hse / 5 * 80 = omega arith in
    let bus : hse / 5 * 80 / clk_init.ahb_divider ≡ hse / 5 * 40 = omega arith in
    let slow : hse / 5 * 40 / clk_init.apb1_divider ≡ hse / 5 * 20 = omega arith in
    rw (cpu, bus, slow) refl

abbrev pub none_sets : List HalCall → Bool
none_sets [] = true
none_sets (c ∷ cs) = not (sets_clocks c) && none_sets cs

module _ (hal : Hal) (laws : ClockLaws hal) where
  open hal use {World}
  open laws use {pll, frequencies}

  pub perform-keeps :
      (cs : List HalCall) (w : World)
      → none_sets cs ≡ true
      → frequencies (perform hal cs w) ≡ frequencies w
  unfolding perform
  perform-keeps [] w h = refl
  perform-keeps (c ∷ cs) w h =
      let not_c : sets_clocks c ≡ false = ground arith in
      let rest : none_sets cs ≡ true = ground arith in
      perform-keeps cs (hal.run c w).1 rest ∙ laws.keeps c w not_c

  abbrev pub Listed : World → Type 0
  Listed w = frequencies w ≡ listed laws.hse

  abbrev compensation : List HalCall
  compensation = csi_enable ∷ syscfg_clock ∷ compensation_cell ∷ []

  start_clocks-Ends : (w : World) → Ends hal Listed (start_clocks hal w)
  unfolding start_clocks
  start_clocks-Ends w =
      and_then-Ends hal (λ v. pll v ≡ pll_hz laws.hse osc_init) Listed
        (must hal (osc_config osc_init) (perform hal (d2sram3_clock ∷ []) w))
        (λ v.
          and_then (must hal (clock_config clk_init flash_latency) v)
            (λ u. done (perform hal compensation u)))
        (must-Ends hal _ (osc_config osc_init) (perform hal (d2sram3_clock ∷ []) w)
          (laws.osc_sets osc_init _ refl refl refl))
        (λ v at.
          and_then-Ends hal Listed Listed (must hal (clock_config clk_init flash_latency) v)
            (λ u. done (perform hal compensation u))
            (must-Ends hal Listed (clock_config clk_init flash_latency) v (λ ok.
              laws.clock_sets clk_init flash_latency v refl ok
              ∙ ap (λ n. divided n clk_init) at
              ∙ divided-listed laws.hse))
            (λ u e. perform-keeps compensation u refl ∙ e))

  -- `systemClockConfig` returns with the CPU at 80, the AXI and AHB buses at 40 and the APB buses at 20
  -- times a fifth of the crystal's frequency, unless the HAL refuses a call; it does not wait forever. The flag of the voltage must be set after fewer reads than the
  -- fuel.
  pub system_clock_config-Ends :
      (fuel : ℕ) (w : World) → laws.reads < fuel → Ends hal Listed (system_clock_config hal fuel w)
  unfolding system_clock_config perform
  system_clock_config-Ends fuel w h =
      let w1 = perform hal (config_supply ∷ voltage_scale1 ∷ []) w in
      and_then-Ends hal (λ _. Unit {0}) Listed (await hal fuel voltage_ready w1) (start_clocks hal)
        (await-Ends hal fuel laws.reads voltage_ready w1 (laws.voltage_rises _) h)
        (λ v _. start_clocks-Ends v)
