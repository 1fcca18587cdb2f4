-- ===== src/DebugUart/Tests.antt =====
-- The reading loop on a channel that writes three bytes after the first two questions, and writes to a
-- stream that takes four bytes at a time.
use mathlib.Core.List.{append_assoc}
use lwip_server.DebugUart.Stream.{StreamLaws, Op, written, serviced, error, run, Delivers}
use lwip_server.DebugUart.Output.{through, run-Delivers}
use lwip_server.Base.{
  min, take-append-drop, length, take, drop, ◌++◌, sym, ◌≡◌, ℕ, ◌+◌, ◌≤◌, ◌<◌, refl, true, false,
  List, [], ◌∷◌, ltb, arith, replicate, if◌then◌else◌,
}
use lwip_server.Base.Int.{pos}
use lwip_server.RxBuffer.{buffer_size}
use lwip_server.RxBuffer.Valid.{IsValid}
use lwip_server.DebugUart.{UartApi, DebugUart, Event, quiet, error_interrupt, read_loop}
use lwip_server.DebugUart.Read.{ChannelLaws, Outcome, read_loop-Outcome}

-- The state of the line is the number of questions so far.
abbrev pub line : UartApi
line = record {
  World = ℕ;
  lock = λ w _. w;
  unlock = λ w. w;
  stream_send = λ w bs n. (0, w);
  stream_receive = λ w n t. ([], w);
  message_bytes = λ m. 69 ∷ [];
  busy_tx = λ w. false;
  transmit_dma = λ w bs. w;
  transmit = λ w bs t. w;
  receive = λ w. ((true, 65), w);
  receive_dma = λ w. w;
  abort = λ w. w;
  dma_error_code = λ w. 0;
  dma_error_te = 1;
  error_code = λ w. 0;
  dma_counter = λ w. (if ltb w 2 then 128 else 125, w + 1);
  memory = λ w. 7 ∷ 8 ∷ 9 ∷ replicate 125 0;
}

counter_low : (w : ℕ) → 0 < (line.dma_counter w).0
counter_low w = ground arith

counter_high : (w : ℕ) → (line.dma_counter w).0 ≤ buffer_size
counter_high w = ground arith

abbrev line_laws : ChannelLaws line
line_laws = record {
  counter_low = counter_low;
  counter_high = counter_high;
  memory_size = λ w. refl;
}

abbrev uart : DebugUart line
uart = record {
  config = record {
    baud = 1500000;
    blocking_tx_timeout_ms = 1000;
    tx_wait_ms = 20;
    use_stream_rx = true;
    use_stream_tx = true;
  };
  uart_error_flag = false;
  rx_buffer = record { buffer = replicate 128 0; head = pos 0; tail = pos 0; size = pos 0 };
}

empty-IsValid : IsValid uart.rx_buffer
empty-IsValid = record {
  memory = refl;
  head_nonneg = refl;
  tail_nonneg = refl;
  size_nonneg = refl;
  head_in = omega arith;
  tail_in = omega arith;
  size_in = omega arith;
  joined = refl;
}

abbrev events : List Event
events = quiet ∷ quiet ∷ quiet ∷ error_interrupt ∷ []

read_loop-Outcome_example : Outcome 2 events (read_loop line events 2 uart 0).0
read_loop-Outcome_example = read_loop-Outcome line line_laws events 2 uart 0 (empty-IsValid, refl)

-- The state of the pipe is what the channel was given, and what the stream holds.
abbrev pipe : UartApi
pipe = record line {
  World = List ℕ × List ℕ;
  lock = λ w _. w;
  unlock = λ w. w;
  stream_send = λ w bs t. (min (length bs) 4, (w.0, w.1 ++ take (min (length bs) 4) bs));
  stream_receive = λ w n t. (take n w.1, (w.0, drop n w.1));
  message_bytes = λ m. 69 ∷ [];
  busy_tx = λ w. false;
  transmit_dma = λ w bs. (w.0 ++ bs, w.1);
  transmit = λ w bs t. w;
  receive = λ w. ((true, 65), w);
  receive_dma = λ w. w;
  abort = λ w. w;
  dma_error_code = λ w. 0;
  dma_error_te = 1;
  error_code = λ w. 0;
  dma_counter = λ w. (128, w);
  memory = λ w. replicate 128 0;
}

send_line : (a q bs : List ℕ) (n : ℕ) → a ++ (q ++ take n bs) ≡ (a ++ q) ++ take n bs
send_line a q bs n = sym (append_assoc a q (take n bs))

send_size : (n : ℕ) → min n 4 ≤ n
send_size n = omega arith

abbrev pipe_laws : StreamLaws pipe
pipe_laws = record {
  line = λ w. w.0;
  queue = λ w. w.1;
  lock_line = λ w. refl;
  unlock_line = λ w. refl;
  send_size = λ w bs t. send_size (length bs);
  send_line = λ w bs t. send_line w.0 w.1 bs (min (length bs) 4);
  receive_line = λ w n t. refl;
  receive_queue = λ w n t. sym (take-append-drop n w.1);
  receive_idle = λ w n t h. refl;
  transmit_line = λ w bs h. refl;
  transmit_queue = λ w bs. refl;
  abort_line = λ w. refl;
  receive_dma_line = λ w. refl;
}

abbrev streamed : DebugUart pipe
streamed = record { config = uart.config; uart_error_flag = false; rx_buffer = uart.rx_buffer }

-- Six bytes of which four go out, a service, an error, and a write to a descriptor that is none.
abbrev traffic : List Op
traffic =
    written 1 (1 ∷ 2 ∷ 3 ∷ 4 ∷ 5 ∷ 6 ∷ []) ∷ serviced ∷ error ∷ written 7 (8 ∷ []) ∷ serviced ∷ []

run-Delivers_example :
    (out : List ℕ) × Delivers pipe traffic (run pipe traffic streamed ([], [])).0 out
    × (through pipe pipe_laws (run pipe traffic streamed ([], [])).1.1 ≡ out)
run-Delivers_example = run-Delivers pipe pipe_laws traffic streamed ([], []) refl
