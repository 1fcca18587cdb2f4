-- ===== src/DebugUart/Read.antt =====
-- The reading loop of `_read`, (src/stm32h7/DebugUart.cpp).
use lwip_server.Base.{
  ℕ, ◌≤◌, ◌<◌, ◌≡◌, refl, sym, subst, if◌then◌else◌, ◌⊎◌, inl, inr, Bool, true, false, Option, none,
  some, List, [], ◌∷◌, length, Bool-cases, arith,
}
use lwip_server.Base.Int.{ℤ, pos, negsuc, ltb_ℤ}
use lwip_server.RxBuffer.{RxBuffer, copy, update_pointers, buffer_size}
use lwip_server.RxBuffer.Valid.{IsValid, copy-IsValid, update_pointers-IsValid, copy_lem}
use lwip_server.DebugUart.{
  UartApi, DebugUart, eio, Answer, Event, quiet, error_interrupt, meet, fetch, read_loop,
  uart_error_handler,
}

-- The documented behaviour of the channel: its counter runs from the size of the buffer down to 1
-- and starts again.
pub record ChannelLaws (api : UartApi) : Type 0 where
  pub counter_low : (w : api.World) → 0 < (api.dma_counter w).0
  pub counter_high : (w : api.World) → (api.dma_counter w).0 ≤ buffer_size
  pub memory_size : (w : api.World) → length (api.memory w) ≡ buffer_size

abbrev pub has_error : List Event → Bool
has_error [] = false
has_error (quiet ∷ es) = has_error es
has_error (error_interrupt ∷ es) = true

-- What a read may give back: bytes, one to `size` of them, and their number; or -1 with EIO, if an
-- error interrupt came; and it still waits only if none came.
abbrev pub Outcome : ℕ → List Event → Option Answer → Type 0
Outcome size es none = has_error es ≡ false
Outcome size es (some a) =
    ((a.value ≡ pos (length a.bytes))
      × (0 < length a.bytes)
      × (length a.bytes ≤ size)
      × (a.errno ≡ none))
    ⊎ ((a.value ≡ negsuc 0) × (a.bytes ≡ []) × (a.errno ≡ some eio) × (has_error es ≡ true))

else_branch : {A : Type 0} {b : Bool} (x y : A) → b ≡ false → (if b then x else y) ≡ y
else_branch x y e = rw e refl

module _ (api : UartApi) (laws : ChannelLaws api) where
  open api use {World}

  abbrev pub Ready : DebugUart api → Type 0
  Ready u = IsValid u.rx_buffer × (u.uart_error_flag ≡ false)

  written : (r : RxBuffer) (w : World) → IsValid r → IsValid (record r { buffer = api.memory w })
  written r w v = record {
    memory = laws.memory_size w;
    head_nonneg = v.head_nonneg;
    tail_nonneg = v.tail_nonneg;
    size_nonneg = v.size_nonneg;
    head_in = v.head_in;
    tail_in = v.tail_in;
    size_in = v.size_in;
    joined = v.joined;
  }

  fetch_lem :
      (size : ℕ) (u : DebugUart api) (w : World)
      → Ready u
      → let r = fetch api size u w in
        (r.0.1 ≡ pos (length r.0.0)) × (length r.0.0 ≤ size) × Ready r.1.0
  unfolding fetch
  fetch_lem size u w (v, f) =
      let (counter, w1) = api.dma_counter w in
      let rx =
        update_pointers-IsValid (record u.rx_buffer { buffer = api.memory w1 }) counter
          (laws.counter_low w) (laws.counter_high w) (written u.rx_buffer w1 v) in
      let r = update_pointers (record u.rx_buffer { buffer = api.memory w1 }) (pos counter) in
      let c = copy_lem r size rx in
      let le : length (copy r (pos size)).0 ≤ size = omega (arith, c.2) in
      (c.1, le, (copy-IsValid r size rx, f))

  positive : (n : ℕ) (k : ℤ) → k ≡ pos n → ltb_ℤ (pos 0) k ≡ true → 0 < n
  positive n k e h = ground arith

  quiet_round :
      (es : List Event) (size : ℕ) (u : DebugUart api) (w : World)
      → let got = fetch api size u w in
        ltb_ℤ (pos 0) got.0.1 ≡ false
        → got.1.0.uart_error_flag ≡ false
        → read_loop api (quiet ∷ es) size u w ≡ read_loop api es size got.1.0 got.1.1
  unfolding read_loop meet
  quiet_round es size u w h flag = rw h (else_branch _ _ flag)

  -- However the interrupts fall between its rounds, a read over the DMA hands over one to `size`
  -- bytes and their number, or fails with EIO after an error interrupt, and no error interrupt
  -- leaves it waiting.
  pub read_loop-Outcome :
      (es : List Event) (size : ℕ) (u : DebugUart api) (w : World)
      → Ready u
      → Outcome size es (read_loop api es size u w).0
  unfolding read_loop meet uart_error_handler
  read_loop-Outcome [] size u w r = refl
  read_loop-Outcome (quiet ∷ es) size u w r =
      let (n, le, ready) = fetch_lem size u w r in
      let got = fetch api size u w in
      elim (Bool-cases (ltb_ℤ (pos 0) got.0.1)) [
        | inl some_ ↦ rw some_ (inl (n, positive (length got.0.0) got.0.1 n some_, le, refl))
        | inr none_ ↦
            subst (λ o. Outcome size es o.0) (sym (quiet_round es size u w none_ ready.1))
              (read_loop-Outcome es size got.1.0 got.1.1 ready)
      ]
  read_loop-Outcome (error_interrupt ∷ es) size u w r =
      let (n, le, ready) = fetch_lem size u w r in
      let got = fetch api size u w in
      elim (Bool-cases (ltb_ℤ (pos 0) got.0.1)) [
        | inl some_ ↦ rw some_ (inl (n, positive (length got.0.0) got.0.1 n some_, le, refl))
        | inr none_ ↦ rw none_ (inr (refl, refl, refl, refl))
      ]
