-- ===== src/DebugUart/Setup.antt =====
-- `debugUartInit` of src/stm32h7/DebugUart.cpp: the pins, the UART, its DMA channels and interrupts.
use lwip_server.Base.{ℕ, ◌^◌, true, false, List, [], ◌∷◌, if◌then◌else◌}
use lwip_server.DebugUart.{DebugUartConfig}
use lwip_server.Chip.Hal.{
  Hal, HalCall, Outcome, done, GpioInit, UartInit, DmaInit, port_d, pull_up, speed_very_high,
  af7_usart3, dma1_stream0, dma1_stream1, usart3_tx, usart3_rx, irq_dma1_stream0, irq_dma1_stream1,
  irq_usart3, gpio_clock, gpio_init, usart3_clock, dma1_clock, uart_init, dma_init, link_dma,
  register_error_callback, set_priority, enable_irq, receive_dma, and_then, perform, must,
}

abbrev uart_pin : ℕ → GpioInit
uart_pin n = record { pin = 2 ^ n; pull = pull_up; speed = speed_very_high; alternate = af7_usart3 }

abbrev pub uart_settings : DebugUartConfig → UartInit
uart_settings config = record {
  baud_rate = config.baud;
  word_length = 8;
  stop_bits = 1;
  over_sampling = 16;
  clock_prescaler = 1;
}

abbrev pub tx_dma : DmaInit
tx_dma = record { request = usart3_tx; to_memory = false; circular = false; high_priority = false }

abbrev pub rx_dma : DebugUartConfig → DmaInit
rx_dma config = record {
  request = usart3_rx;
  to_memory = true;
  circular = config.use_stream_rx;
  high_priority = true;
}

abbrev pub pins : List HalCall
pins =
    gpio_clock port_d
    ∷ gpio_init port_d (uart_pin 8)
    ∷ gpio_clock port_d
    ∷ gpio_init port_d (uart_pin 9)
    ∷ usart3_clock
    ∷ []

-- The interrupts, and the reception where it is through the DMA.
abbrev pub interrupts : DebugUartConfig → List HalCall
interrupts config =
    register_error_callback
    ∷ set_priority irq_dma1_stream0 15 2
    ∷ enable_irq irq_dma1_stream0
    ∷ set_priority irq_dma1_stream1 15 0
    ∷ enable_irq irq_dma1_stream1
    ∷ set_priority irq_usart3 15 1
    ∷ enable_irq irq_usart3
    ∷ (if config.use_stream_rx then receive_dma ∷ [] else [])

module _ (hal : Hal) where
  open hal use {World}

  unfoldable pub debug_uart_init : DebugUartConfig → World → Outcome World
  debug_uart_init config w =
      and_then (must hal (uart_init (uart_settings config)) (perform hal pins w)) (λ w1.
        and_then (must hal (dma_init dma1_stream0 tx_dma) (perform hal (dma1_clock ∷ []) w1)) (λ w2.
          let w3 = perform hal (link_dma dma1_stream0 ∷ []) w2 in
          and_then (must hal (dma_init dma1_stream1 (rx_dma config)) w3)
            (λ w4. done (perform hal (link_dma dma1_stream1 ∷ interrupts config) w4))))
