-- ===== src/Chip/Tick/Rate.antt =====
-- How fast the tick runs (src/stm32h7/Timebase.cpp) with the clocks of `systemClockConfig`.
use native.Mathlib.Nat.{mod-add-mod, mod-eq_of_lt, mul-div_cancel, zero-lt-suc}
use lwip_server.Base.{ℕ, zero, suc, ◌+◌, ◌*◌, ◌/◌, ◌%◌, ◌^◌, ◌<◌, ◌≤◌, ◌≡◌, ap, ◌∙◌, arith}
use lwip_server.Chip.Tick.{TickApi, hal_init_tick, sys_tick_handler}

-- What the vendor documents: the counter of the tick runs with the clock of the CPU, and a setup
-- with n, which must fit the 24 bits of the counter, makes one interrupt of n periods.
pub record TickLaws (api : TickApi) : Type 1 where
  pub sysclk : api.World → ℕ
  pub hclk : api.World → ℕ
  pub periods : api.World → ℕ
  pub hal_tick : api.World → ℕ
  pub tick_bound : (w : api.World) → hal_tick w < 2 ^ 32
  pub hclk_read : (w : api.World) → (api.rcc_get_hclk_freq w).0 ≡ hclk w
  pub read_sysclk : (w : api.World) → sysclk (api.rcc_get_hclk_freq w).1 ≡ sysclk w
  pub config_periods :
      (n : ℕ) (w : api.World) → 0 < n → n ≤ 2 ^ 24 → periods (api.systick_config n w) ≡ n
  pub config_sysclk : (n : ℕ) (w : api.World) → sysclk (api.systick_config n w) ≡ sysclk w
  pub priority_periods :
      (p s : ℕ) (w : api.World) → periods (api.nvic_set_priority p s w) ≡ periods w
  pub priority_sysclk : (p s : ℕ) (w : api.World) → sysclk (api.nvic_set_priority p s w) ≡ sysclk w
  pub inc_value : (w : api.World) → hal_tick (api.inc_tick w) ≡ (hal_tick w + 1) % 2 ^ 32
  pub port_keeps : (w : api.World) → hal_tick (api.port_sys_tick_handler w) ≡ hal_tick w

module _ (api : TickApi) (laws : TickLaws api) where
  open api use {World}
  open laws use {hal_tick}

  -- The interrupts of one second.
  abbrev pub per_second : World → ℕ
  per_second w = laws.sysclk w / laws.periods w

  -- The state after n interrupts.
  abbrev pub after_interrupts : ℕ → World → World
  after_interrupts zero w = w
  after_interrupts (suc n) w = after_interrupts n (sys_tick_handler api w)

  handler-tick : (w : World) → hal_tick (sys_tick_handler api w) ≡ (hal_tick w + 1) % 2 ^ 32
  unfolding sys_tick_handler
  handler-tick w = ground (arith, laws.port_keeps (api.inc_tick w), laws.inc_value w)

  after_interrupts-tick :
      (n : ℕ) (w : World) → hal_tick (after_interrupts n w) ≡ (hal_tick w + n) % 2 ^ 32
  after_interrupts-tick zero w = omega (arith, mod-eq_of_lt (laws.tick_bound w))
  after_interrupts-tick (suc n) w =
      let w1 = sys_tick_handler api w in
      after_interrupts-tick n w1
      ∙ ap (λ t. (t + n) % 2 ^ 32) (handler-tick w)
      ∙ mod-add-mod (hal_tick w + 1) (2 ^ 32) n
      ∙ ap (λ t. t % 2 ^ 32) (omega arith)

  init-per_second :
      (priority : ℕ) (w : World) (n : ℕ)
      → laws.sysclk w ≡ 2 * laws.hclk w
      → laws.hclk w ≡ 1000 * n
      → 0 < n
      → n ≤ 2 ^ 24
      → per_second (hal_init_tick api priority w).1 ≡ 2000
  unfolding hal_init_tick
  init-per_second priority w (suc n) s h pos fits =
      let r = api.rcc_get_hclk_freq w in
      let m = r.0 / 1000 in
      let w1 = api.systick_config m r.1 in
      let reload : m ≡ suc n = let read = laws.hclk_read w in omega arith in
      let cpu : laws.sysclk (api.nvic_set_priority priority 0 w1) ≡ 2000 * suc n =
        laws.priority_sysclk priority 0 w1
        ∙ laws.config_sysclk m r.1
        ∙ laws.read_sysclk w
        ∙ omega arith in
      let set : laws.periods (api.nvic_set_priority priority 0 w1) ≡ suc n =
        laws.priority_periods priority 0 w1
        ∙ laws.config_periods m r.1 (omega arith) (omega arith)
        ∙ reload in
      rw (cpu, set) (mul-div_cancel 2000 (zero-lt-suc n))
  init-per_second priority w zero s h pos fits = absurd (omega arith)

  -- With a CPU clock of twice the bus clock, as `systemClockConfig` sets them up with any crystal, and
  -- a bus clock of whole kilohertz of at most 2 ^ 24 kHz, the setup of the tick lets it count 2000 in
  -- each second, where its counter runs with the clock of the CPU, as documented.
  pub hal_init_tick-rate :
      (priority : ℕ) (w : World) (n : ℕ)
      → laws.sysclk w ≡ 2 * laws.hclk w
      → laws.hclk w ≡ 1000 * n
      → 0 < n
      → n ≤ 2 ^ 24
      → let w1 = (hal_init_tick api priority w).1 in
        hal_tick (after_interrupts (per_second w1) w1) ≡ (hal_tick w1 + 2000) % 2 ^ 32
  hal_init_tick-rate priority w n s h pos fits =
      let w1 = (hal_init_tick api priority w).1 in
      after_interrupts-tick (per_second w1) w1
      ∙ ap (λ i. (hal_tick w1 + i) % 2 ^ 32) (init-per_second priority w n s h pos fits)
