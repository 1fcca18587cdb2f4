-- ===== src/DebugUart/Output.antt =====
-- Writes through the stream of the debug UART (src/stm32h7/DebugUart.cpp): `_write`,
-- `debugUartService` and the error handler, in any order.
use mathlib.Core.List.{append_assoc, append-nil}
use lwip_server.Base.{
  ℕ, ◌≤◌, ◌≡◌, refl, sym, ap, ◌∙◌, if◌then◌else◌, ◌⊎◌, inl, inr, Bool, true, false, ◌||◌, ◌==◌, ltb,
  none, List, [], ◌∷◌, ◌++◌, length, take, Bool-cases, arith,
}
use lwip_server.Base.Int.{pos}
use lwip_server.DebugUart.{
  UartApi, DebugUart, Message, rx_dma_transfer_error, rx_dma_error, uart_error, uart_error_no_code,
  Answer, bad_descriptor, stdout_fileno, stderr_fileno, tx_buffer_size, wait_forever, debug_uart_tx,
  debug_uart_service, say, uart_error_handler, write,
}
use lwip_server.DebugUart.Stream.{
  StreamLaws, Op, written, serviced, error, run, Said, silent, front, Delivers, done, refused,
  accepted, taken, reported,
}

module _ (api : UartApi) (laws : StreamLaws api) where
  open api use {World}

  abbrev pub through : World → List ℕ
  through w = laws.line w ++ laws.queue w

  debug_uart_tx-through :
      (u : DebugUart api) (bs : List ℕ) (w : World)
      → let (n, w1) = debug_uart_tx api u bs w in
        (n ≤ length bs) × (through w1 ≡ through w ++ take n bs)
  unfolding debug_uart_tx
  debug_uart_tx-through u bs w =
      let w0 = api.lock w wait_forever in
      (
        laws.send_size w0 bs u.config.tx_wait_ms,
        laws.unlock_line _
            ∙ laws.send_line w0 bs u.config.tx_wait_ms
            ∙ ap (λ x. x ++ take (api.stream_send w0 bs u.config.tx_wait_ms).0 bs)
                (laws.lock_line w),
      )

  received :
      (w : World)
      → let (bs, w1) = api.stream_receive w tx_buffer_size 0 in
        laws.line w ++ (bs ++ laws.queue w1) ≡ through w
  received w = ap (λ x. laws.line w ++ x) (sym (laws.receive_queue w tx_buffer_size 0))

  kept :
      (line bs queue : List ℕ) → ltb 0 (length bs) ≡ false → line ++ queue ≡ line ++ (bs ++ queue)
  kept line [] queue h = refl
  kept line (b ∷ bs) queue h = absurd (ground arith)

  service-through : (w : World) → through (debug_uart_service api w) ≡ through w
  service-through w = elim (Bool-cases (api.busy_tx w)) [
    | inl busy ↦ rw busy refl
    | inr idle ↦ rw idle (
        let bs = (api.stream_receive w tx_buffer_size 0).0 in
        let w1 = (api.stream_receive w tx_buffer_size 0).1 in
        elim (Bool-cases (ltb 0 (length bs))) [
          | inl some_ ↦ rw some_ (
              rw
                (
                  laws.transmit_line w1 bs (laws.receive_idle w tx_buffer_size 0 idle),
                  laws.transmit_queue w1 bs,
                  laws.receive_line w tx_buffer_size 0,
                  append_assoc,
                )
                (received w))
          | inr none_ ↦
              rw none_ (rw (laws.receive_line w tx_buffer_size 0) (kept _ bs _ none_) ∙ received w)
        ])
  ]

  -- From one state to another the handler says fronts of messages, and no byte is lost.
  Speaks : World → World → Type 0
  Speaks w w1 = (out : List ℕ) × Said api out × (through w1 ≡ through w ++ out)

  quiet-Speaks : (w0 w w1 : World) → through w1 ≡ through w → Speaks w0 w → Speaks w0 w1
  unfolding Speaks
  quiet-Speaks w0 w w1 e (out, said, h) = (out, said, e ∙ h)

  if-Speaks :
      (b : Bool) (w0 w w1 : World) → Speaks w0 w → Speaks w0 w1 → Speaks w0 (if b then w else w1)
  if-Speaks true w0 w w1 h h1 = h
  if-Speaks false w0 w w1 h h1 = h1

  say-Speaks :
      (u : DebugUart api) (b : Bool) (m : Message) (w0 w : World)
      → Speaks w0 w
      → Speaks w0 (say api u b m w)
  unfolding Speaks
  say-Speaks u false m w0 w h = h
  say-Speaks u true m w0 w (out, said, h) =
      let bytes = api.message_bytes m in
      let n = (debug_uart_tx api u bytes w).0 in
      (
        out ++ take n bytes,
        front m n said,
        (debug_uart_tx-through u bytes w).1
            ∙ ap (λ x. x ++ take n bytes) h
            ∙ append_assoc (through w0) out (take n bytes),
      )

  error-Speaks : (u : DebugUart api) (w : World) → Speaks w (uart_error_handler api u w).1
  unfolding uart_error_handler
  error-Speaks u w =
      let w1 = api.abort w in
      let start : Speaks w w1 =
        unfold Speaks in ([], silent, laws.abort_line w ∙ sym (append-nil (through w))) in
      let spoke = say-Speaks u _ uart_error_no_code w _ (
        say-Speaks u _ uart_error w _ (
          if-Speaks (api.dma_error_code w1 == 0) w w1 _ start (
            if-Speaks (api.dma_error_code w1 == api.dma_error_te) w _ _
              (say-Speaks u true rx_dma_transfer_error w w1 start)
              (say-Speaks u true rx_dma_error w w1 start)))) in
      if-Speaks u.config.use_stream_rx w _ _ (quiet-Speaks w _ _ (laws.receive_dma_line _) spoke)
        spoke

  config-error : (u : DebugUart api) (w : World) → (uart_error_handler api u w).0.config ≡ u.config
  unfolding uart_error_handler
  config-error u w = refl

  is_output : ℕ → Bool
  is_output fd = fd == stdout_fileno || fd == stderr_fileno

  Wrote : ℕ → List ℕ → World → Answer × World → Type 0
  Wrote fd bs w r =
      ((is_output fd ≡ false) × (r.0 ≡ bad_descriptor api) × (through r.1 ≡ through w))
      ⊎ ((n : ℕ) × (is_output fd ≡ true)
          × (n ≤ length bs)
          × (r.0 ≡ record { value = pos n; bytes = []; errno = none })
          × (through r.1 ≡ through w ++ take n bs))

  write-Wrote :
      (fd : ℕ) (bs : List ℕ) (u : DebugUart api) (w : World)
      → u.config.use_stream_tx ≡ true
      → Wrote fd bs w (write api fd bs u w)
  unfolding write Wrote is_output
  write-Wrote fd bs u w h = elim (Bool-cases (is_output fd)) [
    | inl yes_ ↦
        rw (yes_, h)
          (let tx = debug_uart_tx-through u bs w in
            inr ((debug_uart_tx api u bs w).0, refl, tx.0, refl, tx.1))
    | inr no_ ↦ rw no_ (inl (refl, refl, refl))
  ]

  -- The stream loses, repeats and reorders no byte. In whatever order writes, services and errors
  -- come, from a UART whose output is streamed, the channel has been given, and then the stream
  -- holds, what they were before and what the operations deliver: of each write to an output the
  -- bytes that its answer counts, nothing of a write to another descriptor, which fails, and fronts
  -- of the messages that the error handler sends.
  pub run-Delivers :
      (ops : List Op) (u : DebugUart api) (w : World)
      → u.config.use_stream_tx ≡ true
      → let (answers, end) = run api ops u w in
        (out : List ℕ) × Delivers api ops answers out × (through end.1 ≡ through w ++ out)
  unfolding run Speaks Wrote is_output
  run-Delivers [] u w h = ([], done, sym (append-nil (through w)))
  run-Delivers (written fd bs ∷ ops) u w h =
      let (out, d, e) = run-Delivers ops u (write api fd bs u w).1 h in
      elim (write-Wrote fd bs u w h) [
        | inl (other, a, r) ↦ rw a (out, refused fd bs other d, e ∙ ap (λ x. x ++ out) r)
        | inr (n, named, le, a, r) ↦ rw a (
          take n bs ++ out,
          accepted fd bs n named le d,
          e ∙ ap (λ x. x ++ out) r ∙ append_assoc (through w) (take n bs) out,
        )
      ]
  run-Delivers (serviced ∷ ops) u w h =
      let (out, d, e) = run-Delivers ops u (debug_uart_service api w) h in
      (out, taken d, e ∙ ap (λ x. x ++ out) (service-through w))
  run-Delivers (error ∷ ops) u w h =
      let (u1, w1) = uart_error_handler api u w in
      let (said, speaks, e1) = error-Speaks u w in
      let (out, d, e) = run-Delivers ops u1 w1 (ap (λ c. c.use_stream_tx) (config-error u w) ∙ h) in
      (
        said ++ out,
        reported speaks d,
        e ∙ ap (λ x. x ++ out) e1 ∙ append_assoc (through w) said out,
      )
