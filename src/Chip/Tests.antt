-- ===== src/Chip/Tests.antt =====
-- A small chip: two sections in memory, one register file, and a HAL that keeps the clocks.
use lwip_server.Base.{
  ◌==◌, if◌then◌else◌, [], ◌∷◌, ℕ, ◌%◌, sym, ◌+◌, ◌^◌, ◌≡◌, refl, inr, true, false, some, arith,
}
use lwip_server.DebugUart.{DebugUartConfig}
use lwip_server.Chip.Startup.{Memory, Layout, copy, fill, load, construct, reset_handler}
use lwip_server.Chip.Startup.Loaded.{IsValid, load_lem}
use lwip_server.Chip.Mpu.{full_access}
use lwip_server.Chip.Mpu.Regions.{configured, governing, attributes, mpu_config-governing}
use lwip_server.Chip.Hal.{Hal, HalCall, osc_config, clock_config}
use lwip_server.Chip.Hal.Ends.{Ends}
use lwip_server.Chip.Clocks.Frequencies.{
  Frequencies, ClockLaws, Listed, pll_hz, divided, sets_clocks,
}
use lwip_server.Chip.Tick.{TickApi, running, hal_init_tick}
use lwip_server.Chip.Tick.Rate.{TickLaws, per_second, after_interrupts, hal_init_tick-rate}
use lwip_server.DebugUart.Setup.{interrupts}
use lwip_server.Chip.Vectors.{serves_tx_dma, raised}
use lwip_server.Chip.Vectors.Served.{enabled, debug_uart_init-served}
use native.Mathlib.Nat.{mod-add-mod}
use lwip_server.Chip.Boot.{base_init}
use lwip_server.Chip.Boot.Order.{base_init-Ends}

-- Four bytes from 100 on with their image at 500, and four from 104 on.
abbrev layout : Layout
layout = record { sidata = 500; sdata = 100; edata = 104; sbss = 104; ebss = 108 }

layout-IsValid : IsValid layout
layout-IsValid = record {
  data_order = omega arith;
  bss_order = omega arith;
  image_apart = inr (omega arith);
  bss_apart = inr (omega arith);
}

abbrev same_as_address : Memory
same_as_address a = a

load_lem_example : load layout same_as_address 102 ≡ 502
load_lem_example = load_lem layout same_as_address 102 layout-IsValid

-- A constructor that counts a variable up.
abbrev count_up : Memory → Memory
count_up m a = if a == 100 then m 100 + 1 else m a

constructed : reset_handler layout (count_up ∷ []) same_as_address 100 ≡ 501
unfolding reset_handler construct load copy fill
constructed = refl

mpu_config-governing_example :
    (configured.is_on ≡ true)
    × (attributes (governing 16 configured 0x30044010)
        ≡ some (record {
          access_permission = full_access;
          is_cacheable = false;
          is_bufferable = false;
          is_shareable = true;
          disable_exec = false;
        }))
mpu_config-governing_example = mpu_config-governing 0x30044010 (omega arith)

-- The PLL's frequency, and the buses'.
pub record Chip : Type 0 where
  pub pll : ℕ
  pub speeds : Frequencies

-- HSE_VALUE of include/stm32h7xx_hal_conf.h.
abbrev hse_value : ℕ
hse_value = 8000000

abbrev step : HalCall → Chip → Chip
step (osc_config o) w = record w { pll = pll_hz hse_value o }
step (clock_config c _) w = record w { speeds = divided w.pll c }
step _ w = w

abbrev pub hal : Hal
hal = record { World = Chip; run = λ c w. (true, step c w) }

pub step_keeps : (c : HalCall) (w : Chip) → sets_clocks c ≡ false → (step c w).speeds ≡ w.speeds
step_keeps (osc_config o) w h = ground arith
step_keeps (clock_config c n) w h = ground arith
step_keeps _ w h = refl

abbrev pub laws : ClockLaws hal
laws = record {
  hse = hse_value;
  pll = λ w. w.pll;
  frequencies = λ w. w.speeds;
  osc_sets = λ o w a b c d. refl;
  clock_sets = λ c n w a b. refl;
  keeps = step_keeps;
  reads = 0;
  voltage_rises = λ w. refl;
}

abbrev pub uart_config : DebugUartConfig
uart_config = record {
  baud = 115200;
  blocking_tx_timeout_ms = 10;
  tx_wait_ms = 10;
  use_stream_rx = true;
  use_stream_tx = true;
}

abbrev pub slow : Frequencies
slow = record { sysclk = 64; hclk = 64; apb3 = 64; apb1 = 64; apb2 = 64; apb4 = 64 }

base_init-Ends_example :
    Ends hal (Listed hal laws) (base_init hal 1 uart_config (record { pll = 0; speeds = slow }))
base_init-Ends_example =
    base_init-Ends hal laws 1 uart_config (record { pll = 0; speeds = slow }) (omega arith)

-- A counter with its period.
record Counter : Type 0 where
  period : ℕ
  count : ℕ

abbrev timer : TickApi
timer = record {
  World = Counter;
  rcc_get_hclk_freq = λ w. (64000000, w);
  systick_config = λ n w. record w { period = n };
  nvic_set_priority = λ p s w. w;
  systick_disable_it = λ w. w;
  systick_enable_it = λ w. w;
  inc_tick = λ w. record w { count = w.count + 1 };
  get_scheduler_state = λ w. running;
  port_sys_tick_handler = λ w. w;
}

abbrev timer_laws : TickLaws timer
timer_laws = record {
  sysclk = λ w. 128000000;
  hclk = λ w. 64000000;
  periods = λ w. w.period;
  hal_tick = λ w. w.count % 2 ^ 32;
  tick_bound = λ w. omega arith;
  hclk_read = λ w. refl;
  read_sysclk = λ w. refl;
  config_periods = λ n w a b. refl;
  config_sysclk = λ n w. refl;
  priority_periods = λ p s w. refl;
  priority_sysclk = λ p s w. refl;
  inc_value = λ w. sym (mod-add-mod w.count (2 ^ 32) 1);
  port_keeps = λ w. refl;
}

abbrev unset : Counter
unset = record { period = 64000; count = 0 }

hal_init_tick-rate_example :
    let w1 = (hal_init_tick timer 15 unset).1 in
    (after_interrupts timer timer_laws (per_second timer timer_laws w1) w1).count % 2 ^ 32
    ≡ (w1.count % 2 ^ 32 + 2000) % 2 ^ 32
hal_init_tick-rate_example =
    hal_init_tick-rate timer timer_laws 15 unset 64000 refl refl (omega arith) (omega arith)

debug_uart_init-served_example :
    (raised 27 ≡ some serves_tx_dma) × (enabled (interrupts uart_config) ≡ 11 ∷ 12 ∷ 39 ∷ [])
debug_uart_init-served_example = debug_uart_init-served uart_config 11 (omega arith)
