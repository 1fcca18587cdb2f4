-- ===== src/Chip/Vectors.antt =====
-- What the processor runs on an exception or an interrupt: the table of src/stm32h7/Vectors.cpp with
-- the handlers that src/stm32h7/Interrupts.cpp, Startup.cpp, Timebase.cpp and DebugUart.cpp define,
-- and those of the kernel that include/FreeRTOSConfig.h names.
mod Defaults
mod Table
pub mod Served
use Prim.Native.String.{String}
use text.Mathlib.Text.{◌==◌}
use lwip_server.Base.{ℕ, List, [], ◌∷◌, ◌++◌, Option, none, some, get_elem?, if◌then◌else◌}
use Defaults.{exception_defaults, interrupt_defaults}
use Table.{Entry, stack_top, reserved, symbol, exceptions, lower_interrupts, upper_interrupts}

-- What a handler does.
pub data Handler : Type 0 where
  loops returns : Handler
  resets ticks : Handler
  serves_uart serves_tx_dma serves_rx_dma : Handler
  kernel_svc kernel_pend_sv : Handler

abbrev exception_handlers : List (String × Handler)
exception_handlers =
    ("NMI_Handler", returns)
    ∷ ("HardFault_Handler", loops)
    ∷ ("MemManage_Handler", loops)
    ∷ ("BusFault_Handler", loops)
    ∷ ("UsageFault_Handler", loops)
    ∷ ("DebugMon_Handler", returns)
    ∷ []

abbrev uart_handlers : List (String × Handler)
uart_handlers =
    ("USART3_IRQHandler", serves_uart)
    ∷ ("DMA1_Stream0_IRQHandler", serves_tx_dma)
    ∷ ("DMA1_Stream1_IRQHandler", serves_rx_dma)
    ∷ []

abbrev kernel_handlers : List (String × Handler)
kernel_handlers = ("SVC_Handler", kernel_svc) ∷ ("PendSV_Handler", kernel_pend_sv) ∷ []

-- The symbols that are not weak.
abbrev strong : List (String × Handler)
strong =
    exception_handlers
    ++ ("Reset_Handler", resets) ∷ ("SysTick_Handler", ticks) ∷ []
    ++ uart_handlers
    ++ kernel_handlers

strong_one : String → List (String × Handler) → Option Handler
strong_one s [] = none
strong_one s ((t, h) ∷ ts) = let rest = strong_one s ts in if t == s then some h else rest

weak_one : String → List String → Option Handler
weak_one s [] = none
weak_one s (t ∷ ts) = let rest = weak_one s ts in if t == s then some loops else rest

-- A weak symbol gives way to one that is not; none is a symbol that nothing defines.
abbrev over : Option Handler → Option Handler → Option Handler
over none o = o
over (some h) o = some h

linked : Entry → Option Handler
unfolding strong_one weak_one
linked (symbol s) =
    over (strong_one s strong) (weak_one s (exception_defaults ++ interrupt_defaults))
linked _ = none

-- What runs when the exception of the given number is raised.
abbrev raised_from : Option Entry → Option Handler
raised_from none = none
raised_from (some e) = linked e

abbrev pub vectors : List Entry
vectors = exceptions ++ lower_interrupts ++ upper_interrupts

unfoldable pub raised : ℕ → Option Handler
unfolding linked
raised k = raised_from (get_elem? vectors k)
