-- ===== src/DebugUart/Stream.antt =====
-- What the debug UART sends (src/stm32h7/DebugUart.cpp): operations on its stream, and what they
-- deliver.
use lwip_server.Base.{ℕ, ◌≤◌, ◌≡◌, true, false, ◌||◌, ◌==◌, none, List, [], ◌∷◌, ◌++◌, length, take}
use lwip_server.Base.Int.{pos}
use lwip_server.DebugUart.{
  UartApi, DebugUart, Message, Answer, bad_descriptor, stdout_fileno, stderr_fileno, wait_forever,
  debug_uart_service, uart_error_handler, write,
}

-- The documented behaviour of the stream, of the mutex and of the channel that sends. `line` is what
-- the channel has been given, `queue` what the stream holds. While a sender waits for room others
-- may take bytes from the stream and give them to the channel.
pub record StreamLaws (api : UartApi) : Type 0 where
  pub line : api.World → List ℕ
  pub queue : api.World → List ℕ
  pub lock_line :
      (w : api.World)
      → line (api.lock w wait_forever) ++ queue (api.lock w wait_forever) ≡ line w ++ queue w
  pub unlock_line :
      (w : api.World) → line (api.unlock w) ++ queue (api.unlock w) ≡ line w ++ queue w
  pub send_size : (w : api.World) (bs : List ℕ) (t : ℕ) → (api.stream_send w bs t).0 ≤ length bs
  pub send_line :
      (w : api.World) (bs : List ℕ) (t : ℕ)
      → let (n, w1) = api.stream_send w bs t in
        line w1 ++ queue w1 ≡ (line w ++ queue w) ++ take n bs
  pub receive_line : (w : api.World) (n t : ℕ) → line (api.stream_receive w n t).1 ≡ line w
  pub receive_queue :
      (w : api.World) (n t : ℕ)
      → let (bs, w1) = api.stream_receive w n t in queue w ≡ bs ++ queue w1
  pub receive_idle :
      (w : api.World) (n t : ℕ)
      → api.busy_tx w ≡ false
      → api.busy_tx (api.stream_receive w n t).1 ≡ false
  -- A channel that is not busy takes what it is given.
  pub transmit_line :
      (w : api.World) (bs : List ℕ)
      → api.busy_tx w ≡ false
      → line (api.transmit_dma w bs) ≡ line w ++ bs
  pub transmit_queue : (w : api.World) (bs : List ℕ) → queue (api.transmit_dma w bs) ≡ queue w
  pub abort_line : (w : api.World) → line (api.abort w) ++ queue (api.abort w) ≡ line w ++ queue w
  pub receive_dma_line :
      (w : api.World) → line (api.receive_dma w) ++ queue (api.receive_dma w) ≡ line w ++ queue w

pub data Op : Type 0 where
  written : ℕ → List ℕ → Op
  serviced error : Op

module _ (api : UartApi) where
  open api use {World}

  unfoldable pub run : List Op → DebugUart api → World → List Answer × (DebugUart api × World)
  run [] u w = ([], (u, w))
  run (written fd bs ∷ ops) u w =
      let (a, w1) = write api fd bs u w in let (answers, end) = run ops u w1 in (a ∷ answers, end)
  run (serviced ∷ ops) u w = run ops u (debug_uart_service api w)
  run (error ∷ ops) u w = let (u1, w1) = uart_error_handler api u w in run ops u1 w1

  -- What the handler may say: fronts of messages.
  pub data Said : List ℕ → Type 0 where
    silent : Said []
    front :
        (m : Message) (n : ℕ) {out : List ℕ} → Said out → Said (out ++ take n (api.message_bytes m))

  -- What goes out for the operations and the answers to them: of each write that names an output as
  -- many bytes as are reported, none of the others, and what the handler says.
  pub data Delivers : List Op → List Answer → List ℕ → Type 0 where
    done : Delivers [] [] []
    refused :
        (fd : ℕ) (bs : List ℕ) {ops : List Op} {answers : List Answer} {out : List ℕ}
        → (fd == stdout_fileno || fd == stderr_fileno) ≡ false
        → Delivers ops answers out
        → Delivers (written fd bs ∷ ops) (bad_descriptor api ∷ answers) out
    accepted :
        (fd : ℕ) (bs : List ℕ) (n : ℕ) {ops : List Op} {answers : List Answer} {out : List ℕ}
        → (fd == stdout_fileno || fd == stderr_fileno) ≡ true
        → n ≤ length bs
        → Delivers ops answers out
        → Delivers
            (written fd bs ∷ ops)
            (record { value = pos n; bytes = []; errno = none } ∷ answers)
            (take n bs ++ out)
    taken :
        {ops : List Op} {answers : List Answer} {out : List ℕ}
        → Delivers ops answers out
        → Delivers (serviced ∷ ops) answers out
    reported :
        {ops : List Op} {answers : List Answer} {said out : List ℕ}
        → Said said
        → Delivers ops answers out
        → Delivers (error ∷ ops) answers (said ++ out)
