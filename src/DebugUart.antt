-- ===== src/DebugUart.antt =====
-- The debug UART, src/stm32h7/DebugUart.cpp. The HAL, the stream buffer and the mutex are a
-- parameter: a state that each call takes and returns.
pub mod Read
pub mod Stream
pub mod Output
pub mod Setup
pub mod Tests
use lwip_server.Base.{
  ℕ, ◌+◌, ◌%◌, ◌^◌, ◌≡◌, ◌==◌, Bool, true, false, not, ◌||◌, Option, none, some, List, [], ◌∷◌,
  length, take, ltb, if◌then◌else◌, get_or,
}
use lwip_server.Base.Int.{ℤ, pos, negsuc, ltb_ℤ}
use lwip_server.RxBuffer.{RxBuffer, copy, update_pointers, buffer_size}

pub record DebugUartConfig : Type 0 where
  pub baud : ℕ
  pub blocking_tx_timeout_ms : ℕ
  pub tx_wait_ms : ℕ
  pub use_stream_rx : Bool
  pub use_stream_tx : Bool

-- The messages that the handler sends.
pub data Message : Type 0 where
  rx_dma_transfer_error rx_dma_error uart_error uart_error_no_code : Message

abbrev pub wait_forever : Option ℕ
wait_forever = none

abbrev pub tx_buffer_size : ℕ
tx_buffer_size = 64

pub record UartApi : Type 1 where
  pub World : Type 0
  pub lock : World → Option ℕ → World
  pub unlock : World → World
  -- The stream buffer: what was taken, and what was given.
  pub stream_send : World → List ℕ → ℕ → ℕ × World
  pub stream_receive : World → ℕ → ℕ → List ℕ × World
  pub message_bytes : Message → List ℕ
  pub busy_tx : World → Bool
  pub transmit_dma : World → List ℕ → World
  pub transmit : World → List ℕ → ℕ → World
  -- A blocking read of one byte.
  pub receive : World → (Bool × ℕ) × World
  pub receive_dma : World → World
  pub abort : World → World
  pub dma_error_code : World → ℕ
  pub dma_error_te : ℕ
  pub error_code : World → ℕ
  -- The counter of the DMA channel, and the memory that it writes to.
  pub dma_counter : World → ℕ × World
  pub memory : World → List ℕ

abbrev pub stdin_fileno : ℕ
stdin_fileno = 0

abbrev pub stdout_fileno : ℕ
stdout_fileno = 1

abbrev pub stderr_fileno : ℕ
stderr_fileno = 2

pub data Errno : Type 0 where
  eio ebadf : Errno

-- What a system call gives back: its value, the bytes put into the caller's buffer, and `errno`
-- where it was set.
pub record Answer : Type 0 where
  pub value : ℤ
  pub bytes : List ℕ
  pub errno : Option Errno

-- What comes between two rounds of the reading loop.
pub data Event : Type 0 where
  quiet error_interrupt : Event

module _ (api : UartApi) where
  open api use {World}

  pub record DebugUart : Type 0 where
    pub config : DebugUartConfig
    pub uart_error_flag : Bool
    pub rx_buffer : RxBuffer

  pub debug_uart_tx : DebugUart → List ℕ → World → ℕ × World
  debug_uart_tx u data_ w =
      let (size, w1) = api.stream_send (api.lock w wait_forever) data_ u.config.tx_wait_ms in
      (size, api.unlock w1)

  abbrev pub debug_uart_service : World → World
  debug_uart_service w =
      if api.busy_tx w
      then w
      else let (bytes, w1) = api.stream_receive w tx_buffer_size 0 in
        if ltb 0 (length bytes) then api.transmit_dma w1 bytes else w1

  abbrev pub say : DebugUart → Bool → Message → World → World
  say u true m w = (debug_uart_tx u (api.message_bytes m) w).1
  say u false m w = w

  unfoldable pub uart_error_handler : DebugUart → World → DebugUart × World
  unfolding debug_uart_tx
  uart_error_handler u w =
      let w1 = api.abort w in
      let dma = api.dma_error_code w1 in
      let w2 =
        if dma == 0
        then w1
        else if dma == api.dma_error_te
        then say u true rx_dma_transfer_error w1
        else say u true rx_dma_error w1 in
      let w3 = say u (not (api.error_code w2 == 0)) uart_error w2 in
      let none_set = if api.error_code w3 == 0 then api.dma_error_code w3 == 0 else false in
      let w4 = say u none_set uart_error_no_code w3 in
      (
        record u { uart_error_flag = true },
        if u.config.use_stream_rx then api.receive_dma w4 else w4,
      )

  abbrev pub bad_descriptor : Answer
  bad_descriptor = record { value = negsuc 0; bytes = []; errno = some ebadf }

  -- `_write`. A blocking call is given the number of bytes as 16 bits.
  pub write : ℕ → List ℕ → DebugUart → World → Answer × World
  unfolding debug_uart_tx
  write fd data_ u w =
      if not (fd == stdout_fileno || fd == stderr_fileno)
      then (bad_descriptor, w)
      else if u.config.use_stream_tx
      then (let (size, w1) = debug_uart_tx u data_ w in
          (record { value = pos size; bytes = []; errno = none }, w1))
      else (
        record { value = pos (length data_); bytes = []; errno = none },
        api.transmit w (take (length data_ % 2 ^ 16) data_) u.config.blocking_tx_timeout_ms,
      )

  unfoldable pub meet : Event → DebugUart → World → DebugUart × World
  unfolding uart_error_handler
  meet quiet u w = (u, w)
  meet error_interrupt u w = uart_error_handler u w

  -- One round of the loop of `_read`: what the DMA has written, and how much of it is handed over.
  unfoldable pub fetch : ℕ → DebugUart → World → (List ℕ × ℤ) × (DebugUart × World)
  fetch size u w =
      let (counter, w1) = api.dma_counter w in
      let rx = update_pointers (record u.rx_buffer { buffer = api.memory w1 }) (pos counter) in
      let (bytes, n, rx1) = copy rx (pos size) in ((bytes, n), (record u { rx_buffer = rx1 }, w1))

  -- The loop, over the events between its rounds. It has no answer while it waits.
  unfoldable pub read_loop :
      List Event → ℕ → DebugUart → World → Option Answer × (DebugUart × World)
  unfolding meet fetch
  read_loop [] size u w = (none, (u, w))
  read_loop (e ∷ es) size u w =
      let got = fetch size u w in
      let met = meet e got.1.0 got.1.1 in
      let rest = read_loop es size met.0 met.1 in
      if ltb_ℤ (pos 0) got.0.1
      then (some (record { value = got.0.1; bytes = got.0.0; errno = none }), met)
      else if met.0.uart_error_flag
      then (some (record { value = negsuc 0; bytes = []; errno = some eio }), met)
      else rest

  -- EIO is 5.
  unfoldable pub read_blocking : DebugUart → World → Option Answer × (DebugUart × World)
  read_blocking u w =
      let ((ok, byte), w1) = api.receive w in
      if ok
      then (some (record { value = pos 1; bytes = byte ∷ []; errno = none }), (u, w1))
      else (some (record { value = pos 5; bytes = []; errno = none }), (u, w1))

  -- `_read`.
  unfoldable pub read : ℕ → List Event → ℕ → DebugUart → World → Option Answer × (DebugUart × World)
  unfolding read_loop read_blocking
  read fd es size u w =
      if not (fd == stdin_fileno)
      then (some bad_descriptor, (u, w))
      else if u.config.use_stream_rx
      then read_loop es size (record u { uart_error_flag = false }) w
      else read_blocking u w
