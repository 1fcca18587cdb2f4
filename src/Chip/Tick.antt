-- ===== src/Chip/Tick.antt =====
-- The tick: src/stm32h7/Timebase.cpp. The HAL and the kernel are a parameter: a state that each call
-- takes and returns.
pub mod Rate
use lwip_server.Base.{ℕ, ◌/◌, Bool, true, false, if◌then◌else◌}

pub data Scheduler : Type 0 where
  not_started running suspended : Scheduler

pub record TickApi : Type 1 where
  pub World : Type 0
  pub rcc_get_hclk_freq : World → ℕ × World
  pub systick_config : ℕ → World → World
  -- The priority and the subpriority of the tick's interrupt.
  pub nvic_set_priority : ℕ → ℕ → World → World
  pub systick_disable_it : World → World
  pub systick_enable_it : World → World
  pub inc_tick : World → World
  pub get_scheduler_state : World → Scheduler
  pub port_sys_tick_handler : World → World

abbrev is_started : Scheduler → Bool
is_started not_started = false
is_started _ = true

module _ (api : TickApi) where
  open api use {World}

  -- `HAL_InitTick`: whether it returns HAL_OK.
  unfoldable pub hal_init_tick : ℕ → World → Bool × World
  hal_init_tick priority w =
      let (hclk, w1) = api.rcc_get_hclk_freq w in
      (true, api.nvic_set_priority priority 0 (api.systick_config (hclk / 1000) w1))

  abbrev pub hal_suspend_tick : World → World
  hal_suspend_tick w = api.systick_disable_it w

  abbrev pub hal_resume_tick : World → World
  hal_resume_tick w = api.systick_enable_it w

  unfoldable pub sys_tick_handler : World → World
  sys_tick_handler w =
      let w1 = api.inc_tick w in
      if is_started (api.get_scheduler_state w1) then api.port_sys_tick_handler w1 else w1
