-- ===== src/RxBuffer/Queue.antt =====
-- The receive ring with the DMA channel that fills it (src/utils/DmaRxBuffer.cpp), as a queue that
-- keeps the latest 128 bytes.
use lwip_server.Base.{
  ℕ, ◌+◌, ◌-◌, ◌%◌, ◌≤◌, ◌<◌, ◌≡◌, refl, ap, sym, ap₂, subst, ◌∙◌, List, [], ◌∷◌, ◌++◌, arith,
  length, drop, length-append, length-drop, drop-append, drop-drop, min,
}
use lwip_server.Base.Int.{pos, pos_part}
use lwip_server.Base.Window.{length-window}
use lwip_server.Base.Ring.{
  write_round, full, length-write_round, length-full, full-write_round, window-full,
}
use lwip_server.RxBuffer.{RxBuffer, buffer_size, new, copy, update_pointers}
use lwip_server.RxBuffer.Valid.{
  IsValid, contents, arrived, copy_lem, copy-IsValid, update_pointers-IsValid, update-size,
  update-buffer,
}

-- What happens to the ring: bytes come in and the pointers follow, or a caller takes up to n bytes.
pub data Op : Type 0 where
  receive : List ℕ → Op
  read : ℕ → Op

abbrev pub take_in : List ℕ → RxBuffer → RxBuffer
take_in bs r =
    let place = pos_part r.tail in
    let m = write_round 0 buffer_size bs place r.buffer in
    update_pointers (record r { buffer = m })
      (pos (buffer_size - (place + length bs) % buffer_size))

-- What is handed over, and the ring after.
abbrev pub operate : Op → RxBuffer → List ℕ × RxBuffer
operate (receive bs) r = ([], take_in bs r)
operate (read n) r = let (bytes, _, r1) = copy r (pos n) in (bytes, r1)

-- Fewer bytes come in between two operations than the memory holds.
abbrev pub Fits : Op → Type 0
Fits (receive bs) = length bs < buffer_size
Fits (read n) = Unit {0}

-- The last n of some bytes.
abbrev pub latest : ℕ → List ℕ → List ℕ
latest n bs = drop (length bs - n) bs

-- The queue: what can be handed over in one operation, and the queue after. A read takes at least
-- one byte if there is one.
pub data Step : List ℕ → Op → List ℕ → List ℕ → Type 0 where
  received : (q bs : List ℕ) → Step q (receive bs) [] (latest buffer_size (q ++ bs))
  handed :
      (n : ℕ) (out rest : List ℕ)
      → length out ≤ n
      → (0 < n → 0 < length (out ++ rest) → 0 < length out)
      → Step (out ++ rest) (read n) out rest

contents-full :
    (r : RxBuffer)
    → IsValid r
    → contents r
      ≡ drop (buffer_size - pos_part r.size) (full 0 buffer_size r.buffer (pos_part r.tail))
contents-full r v =
    window-full 0 buffer_size r.buffer (pos_part r.head) (pos_part r.size) (pos_part r.tail)
      v.head_in v.size_in v.tail_in v.joined

update-tail :
    (r : RxBuffer) (counter : ℕ)
    → 0 < counter
    → counter ≤ buffer_size
    → IsValid r
    → pos_part (update_pointers r (pos counter)).tail ≡ buffer_size - counter
unfolding update_pointers
update-tail r counter lo hi v = ground arith

module _ (r : RxBuffer) (bs : List ℕ) (v : IsValid r) (few : length bs < buffer_size) where
  abbrev place : ℕ
  place = pos_part r.tail

  abbrev counter : ℕ
  counter = buffer_size - (place + length bs) % buffer_size

  abbrev filled : RxBuffer
  filled = record r { buffer = write_round 0 buffer_size bs place r.buffer }

  filled-IsValid : IsValid filled
  filled-IsValid = record {
    memory = length-write_round 0 buffer_size bs place r.buffer ∙ v.memory;
    head_nonneg = v.head_nonneg;
    tail_nonneg = v.tail_nonneg;
    size_nonneg = v.size_nonneg;
    head_in = v.head_in;
    tail_in = v.tail_in;
    size_in = v.size_in;
    joined = v.joined;
  }

  counter-positive : 0 < counter
  counter-positive = omega arith

  counter-bound : counter ≤ buffer_size
  counter-bound = omega arith

  after-IsValid : IsValid (take_in bs r)
  after-IsValid =
      update_pointers-IsValid filled counter counter-positive counter-bound filled-IsValid

  arrived_all : arrived filled counter ≡ length bs
  arrived_all = omega (arith, v.tail_in, few)

  after-size : pos_part (take_in bs r).size ≡ min (pos_part r.size + length bs) buffer_size
  after-size =
      ground (
        arith,
        update-size filled counter counter-positive counter-bound filled-IsValid,
        arrived_all,
      )

  after-tail : pos_part (take_in bs r).tail ≡ (place + length bs) % buffer_size
  after-tail =
      update-tail filled counter counter-positive counter-bound filled-IsValid ∙ omega arith

  after-full :
      full 0 buffer_size (take_in bs r).buffer (pos_part (take_in bs r).tail)
      ≡ drop (length bs) (full 0 buffer_size r.buffer place) ++ bs
  after-full =
      ap₂ (full 0 buffer_size)
        (update-buffer filled counter counter-positive counter-bound filled-IsValid) after-tail
      ∙ full-write_round 0 buffer_size bs r.buffer place v.memory v.tail_in (omega arith)

  received-latest : contents (take_in bs r) ≡ latest buffer_size (contents r ++ bs)
  received-latest =
      let n = length bs in
      let s = pos_part r.size in
      let old = full 0 buffer_size r.buffer place in
      let older = drop (buffer_size - s) old in
      let size = length-full 0 buffer_size r.buffer place in
      let older_size : length older ≡ s =
        omega (arith, length-drop (buffer_size - s) old, v.size_in, size) in
      let new = buffer_size - pos_part (take_in bs r).size in
      contents-full (take_in bs r) after-IsValid
      ∙ ap (drop new) after-full
      ∙ drop-append new (drop n old) bs (omega (arith, length-drop n old, after-size))
      ∙ ap (λ t. t ++ bs)
          (drop-drop new n old
            ∙ ap (λ k. drop k old) (omega (arith, after-size, v.size_in))
            ∙ sym (drop-drop (s + n - buffer_size) (buffer_size - s) old))
      ∙ sym (drop-append (s + n - buffer_size) older bs (omega arith))
      ∙ ap (λ k. drop (k - buffer_size) (older ++ bs))
          (sym (length-append older bs ∙ ap (λ k. k + n) older_size))
      ∙ ap (λ t. latest buffer_size (t ++ bs)) (sym (contents-full r v))

-- One operation on a valid ring is a step of the queue, and leaves a valid ring.
operate-Step :
    (o : Op) (r : RxBuffer)
    → IsValid r
    → Fits o
    → Step (contents r) o (operate o r).0 (contents (operate o r).1) × IsValid (operate o r).1
operate-Step (receive bs) r v few = (
  subst (λ q. Step (contents r) (receive bs) [] q) (sym (received-latest r bs v few))
      (received (contents r) bs),
  after-IsValid r bs v few,
)
operate-Step (read n) r v few =
    let (front, _, size) = copy_lem r n v in
    let out = (copy r (pos n)).0 in
    let rest = contents (copy r (pos n)).2 in
    let both : length (out ++ rest) ≡ pos_part r.size =
      ap length front ∙ length-window 0 r.buffer buffer_size (pos_part r.head) (pos_part r.size) in
    let some_taken : 0 < n → 0 < length (out ++ rest) → 0 < length out =
      λ p q. omega (arith, size, both, v.head_in) in
    (
      subst (λ q. Step q (read n) out rest) front
          (handed n out rest (omega (arith, size)) some_taken),
      copy-IsValid r n v,
    )

-- What is handed over by each operation of a sequence, and the ring after all.
abbrev pub operate_all : List Op → RxBuffer → List (List ℕ) × RxBuffer
operate_all [] r = ([], r)
operate_all (o ∷ os) r =
    let (out, r1) = operate o r in let (outs, r2) = operate_all os r1 in (out ∷ outs, r2)

pub data Steps : List ℕ → List Op → List (List ℕ) → List ℕ → Type 0 where
  no_step : (q : List ℕ) → Steps q [] [] q
  a_step :
      (q q1 q2 : List ℕ) (o : Op) (os : List Op) (out : List ℕ) (outs : List (List ℕ))
      → Step q o out q1
      → Steps q1 os outs q2
      → Steps q (o ∷ os) (out ∷ outs) q2

abbrev pub AllFit : List Op → Type 0
AllFit [] = Unit {0}
AllFit (o ∷ os) = Fits o × AllFit os

operate_all-Steps :
    (os : List Op) (r : RxBuffer)
    → IsValid r
    → AllFit os
    → Steps (contents r) os (operate_all os r).0 (contents (operate_all os r).1)
operate_all-Steps [] r v f = no_step (contents r)
operate_all-Steps (o ∷ os) r v (f, fs) =
    let (s, v1) = operate-Step o r v f in
    let r1 = (operate o r).1 in
    a_step (contents r) (contents r1) _ o os _ _ s (operate_all-Steps os r1 v1 fs)

new-IsValid : (memory : List ℕ) → length memory ≡ buffer_size → IsValid (new memory)
unfolding new
new-IsValid memory e = record {
  memory = e;
  head_nonneg = refl;
  tail_nonneg = refl;
  size_nonneg = refl;
  head_in = omega arith;
  tail_in = omega arith;
  size_in = omega arith;
  joined = refl;
}

contents-new : (memory : List ℕ) → contents (new memory) ≡ []
unfolding new
contents-new memory = refl

-- The ring is a queue that keeps the latest 128 bytes, whatever comes in and is asked for: in every
-- sequence of operations, what it hands over, and what it holds after, is what the queue can do. A
-- read takes at least one byte if there is one. At the start the ring is empty, over a memory of
-- 128 bytes; between two operations fewer than 128 bytes come in.
pub new-Steps :
    (os : List Op) (memory : List ℕ)
    → length memory ≡ buffer_size
    → AllFit os
    → let (outs, r) = operate_all os (new memory) in Steps [] os outs (contents r)
new-Steps os memory e f =
    subst
      (λ q. Steps q os (operate_all os (new memory)).0 (contents (operate_all os (new memory)).1))
      (contents-new memory) (operate_all-Steps os (new memory) (new-IsValid memory e) f)
