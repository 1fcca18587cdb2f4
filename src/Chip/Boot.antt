-- ===== src/Chip/Boot.antt =====
-- `Base` of include/lwipserver/stm32h7/Base.h: what `main` does first.
pub mod Order
use lwip_server.Base.{ℕ, List, [], ◌∷◌}
use lwip_server.DebugUart.{DebugUartConfig}
use lwip_server.DebugUart.Setup.{debug_uart_init}
use lwip_server.Chip.Mpu.{MpuCall, mpu_config}
use lwip_server.Chip.Hal.{
  Hal, HalCall, Outcome, mpu, enable_i_cache, enable_d_cache, hal_init, and_then, perform,
}
use lwip_server.Chip.Clocks.{system_clock_config}

abbrev pub mpu_calls : List MpuCall → List HalCall
mpu_calls [] = []
mpu_calls (c ∷ cs) = mpu c ∷ mpu_calls cs

abbrev pub cpu_cache_enable : List HalCall
cpu_cache_enable = enable_i_cache ∷ enable_d_cache ∷ []

module _ (hal : Hal) where
  open hal use {World}

  -- `Base::init`.
  unfoldable pub base_init : ℕ → DebugUartConfig → World → Outcome World
  base_init fuel config w =
      let w1 = perform hal (mpu_calls mpu_config) w in
      let w2 = perform hal (hal_init ∷ []) (perform hal cpu_cache_enable w1) in
      and_then (system_clock_config hal fuel w2) (debug_uart_init hal config)
