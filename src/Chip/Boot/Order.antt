-- ===== src/Chip/Boot/Order.antt =====
-- What holds once `Base::init` has run (include/lwipserver/stm32h7/Base.h).
use lwip_server.Base.{ℕ, ◌<◌, ◌≡◌, refl, ◌∙◌, arith, true, List, [], ◌∷◌}
use lwip_server.DebugUart.{DebugUartConfig}
use lwip_server.DebugUart.Setup.{debug_uart_init, uart_settings, tx_dma, rx_dma, pins, interrupts}
use lwip_server.Chip.Hal.{
  Hal, HalCall, Outcome, and_then, perform, must, uart_init, dma_init, dma1_clock, link_dma,
  dma1_stream0, dma1_stream1, hal_init,
}
use lwip_server.Chip.Mpu.{mpu_config}
use lwip_server.Chip.Hal.Ends.{Ends, and_then-Ends, must-Ends}
use lwip_server.Chip.Clocks.{system_clock_config}
use lwip_server.Chip.Clocks.Frequencies.{
  ClockLaws, Listed, perform-keeps, none_sets, system_clock_config-Ends,
}
use lwip_server.Chip.Boot.{base_init, mpu_calls, cpu_cache_enable}

interrupts-none_sets : (config : DebugUartConfig) → none_sets (interrupts config) ≡ true
interrupts-none_sets config = ground arith

module _ (hal : Hal) (laws : ClockLaws hal) where
  open hal use {World}

  -- A step that sets no clock, and the rest of the routine.
  must-Listed :
      (c : HalCall) (cs : List HalCall) (w : World) (f : World → Outcome World)
      → none_sets (c ∷ cs) ≡ true
      → Listed hal laws w
      → ((v : World) → Listed hal laws v → Ends hal (Listed hal laws) (f v))
      → Ends hal (Listed hal laws) (and_then (must hal c (perform hal cs w)) f)
  must-Listed c cs w f h e k =
      and_then-Ends hal (Listed hal laws) (Listed hal laws) (must hal c (perform hal cs w)) f
        (must-Ends hal (Listed hal laws) c (perform hal cs w) (λ _.
          laws.keeps c (perform hal cs w) (ground arith)
          ∙ perform-keeps hal laws cs w (ground arith)
          ∙ e))
        k

  debug_uart_init-Listed :
      (config : DebugUartConfig) (w : World)
      → Listed hal laws w
      → Ends hal (Listed hal laws) (debug_uart_init hal config w)
  unfolding debug_uart_init
  debug_uart_init-Listed config w e =
      must-Listed (uart_init (uart_settings config)) pins w _ refl e (λ w1 e1.
        must-Listed (dma_init dma1_stream0 tx_dma) (dma1_clock ∷ []) w1 _ refl e1 (λ w2 e2.
          must-Listed (dma_init dma1_stream1 (rx_dma config)) (link_dma dma1_stream0 ∷ []) w2 _ refl
            e2
            (λ w3 e3.
              perform-keeps hal laws (link_dma dma1_stream1 ∷ interrupts config) w3
                (interrupts-none_sets config)
              ∙ e3)))

  -- `Base::init` returns with the CPU's clock at 80, that of the AXI and AHB buses at 40 and those of
  -- the APB buses at 20 times a fifth of the crystal's frequency, unless the HAL refuses a call, where
  -- the HAL sets the clocks up as documented; it does not wait forever. The flag of the voltage must
  -- be set after fewer reads than the fuel. A crystal of 25 MHz, which the comment in
  -- `systemClockConfig` assumes, gives 400, 200 and 100 MHz; one of 8 MHz, the `HSE_VALUE` of
  -- include/stm32h7xx_hal_conf.h, gives 128, 64 and 32 MHz.
  pub base_init-Ends :
      (fuel : ℕ) (config : DebugUartConfig) (w : World)
      → laws.reads < fuel
      → Ends hal (Listed hal laws) (base_init hal fuel config w)
  unfolding base_init
  base_init-Ends fuel config w h =
      let w1 = perform hal (mpu_calls mpu_config) w in
      let w2 = perform hal (hal_init ∷ []) (perform hal cpu_cache_enable w1) in
      and_then-Ends hal (Listed hal laws) (Listed hal laws) (system_clock_config hal fuel w2) _
        (system_clock_config-Ends hal laws fuel w2 h) (debug_uart_init-Listed config)
