-- ===== src/Chip/Hal.antt =====
-- The calls of the vendor's HAL that set the chip up, with the structs that they are given. The HAL
-- is a parameter: a state of the hardware that each call takes and returns, and whether the call
-- succeeded, which for a call without a result means nothing.
pub mod Ends
use lwip_server.Base.{ℕ, zero, suc, Bool, true, false, List, [], ◌∷◌, if◌then◌else◌}
use lwip_server.Chip.Mpu.{MpuCall}

pub data Port : Type 0 where
  port_a port_b port_c port_d port_g : Port

pub data Pull : Type 0 where
  no_pull pull_up : Pull

pub data Speed : Type 0 where
  speed_high speed_very_high : Speed

-- The alternate functions AF7 and AF11.
pub data Alternate : Type 0 where
  af7_usart3 af11_eth : Alternate

-- `GPIO_InitTypeDef`; the mode is an alternate function with push and pull everywhere.
pub record GpioInit : Type 0 where
  pub pin : ℕ
  pub pull : Pull
  pub speed : Speed
  pub alternate : Alternate

-- `RCC_PLLInitTypeDef`, as far as it is set.
pub record Pll : Type 0 where
  pub pll_on : Bool
  pub from_hse : Bool
  pub pllm : ℕ
  pub plln : ℕ
  pub pllfracn : ℕ
  pub pllp : ℕ
  pub pllr : ℕ
  pub pllq : ℕ
  pub vco_wide : Bool
  pub vci_range : ℕ

pub record OscInit : Type 0 where
  pub hse_on : Bool
  pub hsi_on : Bool
  pub csi_on : Bool
  pub pll : Pll

-- `RCC_ClkInitTypeDef` for all six clocks, with the dividers as numbers.
pub record ClkInit : Type 0 where
  pub from_pll : Bool
  pub sysclk_divider : ℕ
  pub ahb_divider : ℕ
  pub apb3_divider : ℕ
  pub apb1_divider : ℕ
  pub apb2_divider : ℕ
  pub apb4_divider : ℕ

-- `UART_InitTypeDef`; the parity, the flow control and the one-bit sampling are off.
pub record UartInit : Type 0 where
  pub baud_rate : ℕ
  pub word_length : ℕ
  pub stop_bits : ℕ
  pub over_sampling : ℕ
  pub clock_prescaler : ℕ

pub data Stream : Type 0 where
  dma1_stream0 dma1_stream1 : Stream

pub data Request : Type 0 where
  usart3_tx usart3_rx : Request

-- `DMA_InitTypeDef`; the data are bytes, the peripheral's address stays, and there is no FIFO.
pub record DmaInit : Type 0 where
  pub request : Request
  pub to_memory : Bool
  pub circular : Bool
  pub high_priority : Bool

pub data Irq : Type 0 where
  irq_dma1_stream0 irq_dma1_stream1 irq_usart3 : Irq

pub data HalCall : Type 0 where
  mpu : MpuCall → HalCall
  enable_i_cache enable_d_cache hal_init : HalCall
  config_supply voltage_scale1 voltage_ready d2sram3_clock : HalCall
  osc_config : OscInit → HalCall
  clock_config : ClkInit → ℕ → HalCall
  csi_enable syscfg_clock compensation_cell : HalCall
  gpio_clock : Port → HalCall
  gpio_init : Port → GpioInit → HalCall
  usart3_clock dma1_clock : HalCall
  uart_init : UartInit → HalCall
  dma_init : Stream → DmaInit → HalCall
  link_dma : Stream → HalCall
  register_error_callback : HalCall
  set_priority : Irq → ℕ → ℕ → HalCall
  enable_irq : Irq → HalCall
  receive_dma : HalCall
  eth_mac_clock eth_tx_clock eth_rx_clock : HalCall

pub record Hal : Type 1 where
  pub World : Type 0
  pub run : HalCall → World → Bool × World

-- How a setup routine ends: it returns, it stays in `while (true)`, or it still waits for a flag.
pub data Outcome (W : Type 0) : Type 0 where
  done halted waiting : W → Outcome W

abbrev pub and_then : {W : Type 0} → Outcome W → (W → Outcome W) → Outcome W
and_then (done w) f = f w
and_then (halted w) f = halted w
and_then (waiting w) f = waiting w

module _ (hal : Hal) where
  open hal use {World}

  unfoldable pub perform : List HalCall → World → World
  perform [] w = w
  perform (c ∷ cs) w = perform cs (hal.run c w).1

  -- A call whose failure stops the program.
  unfoldable pub must : HalCall → World → Outcome World
  must c w = let (ok, w1) = hal.run c w in if ok then done w1 else halted w1

  -- The loop that waits for a flag, over at most `fuel` reads of it.
  unfoldable pub await : ℕ → HalCall → World → Outcome World
  await zero c w = waiting w
  await (suc fuel) c w =
      let (ok, w1) = hal.run c w in let rest = await fuel c w1 in if ok then done w1 else rest
