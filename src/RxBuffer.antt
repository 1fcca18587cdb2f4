-- ===== src/RxBuffer.antt =====
-- The receive ring of include/lwipserver/utils/DmaRxBuffer.h and src/utils/DmaRxBuffer.cpp: a
-- circular DMA channel writes the bytes, the class only follows its counter. `int` is ℤ: the
-- fields stay far from the limits of the machine's `int`, but they can go negative.
pub mod Valid
pub mod Queue
mod Tests
use lwip_server.Base.{ℕ, ◌≡◌, Bool, ◌||◌, List, [], ◌∷◌, if◌then◌else◌, take, drop, replicate}
use lwip_server.Base.Int.{ℤ, pos, pos_part, ◌+ℤ◌, ◌-ℤ◌, ltb_ℤ, eq_ℤ, min_ℤ}

-- sBufferSize
abbrev pub buffer_size : ℕ
buffer_size = 128

pub record RxBuffer : Type 0 where
  pub buffer : List ℕ
  pub head : ℤ
  pub tail : ℤ
  pub size : ℤ

pub new : List ℕ → RxBuffer
new memory = record { buffer = memory; head = pos 0; tail = pos 0; size = pos 0 }

-- The bytes from the head that lie side by side in memory.
available_at_end : RxBuffer → ℤ
available_at_end r =
    if eq_ℤ r.size (pos 0) || ltb_ℤ r.head r.tail
    then r.tail -ℤ r.head
    else pos buffer_size -ℤ r.head

-- `std::copy_n(mBuffer + mHead, n, …)`: what it hands over. A count below one copies nothing.
abbrev pub slice : RxBuffer → ℤ → List ℕ
slice r n = take (pos_part n) (drop (pos_part r.head) r.buffer)

-- Returns the bytes copied out, their number, and the buffer after the call.
pub copy : RxBuffer → ℤ → List ℕ × ℤ × RxBuffer
unfolding available_at_end ◌+ℤ◌ ◌-ℤ◌
copy r size =
    let copy_size = min_ℤ (available_at_end r) size in
    let head = r.head +ℤ copy_size in
    (
      slice r copy_size,
      copy_size,
      record r {
        head = if eq_ℤ head (pos buffer_size) then pos 0 else head;
        size = r.size -ℤ copy_size;
      },
    )

-- The part of `updatePointers` after its early return.
advance : RxBuffer → ℤ → ℤ → RxBuffer
unfolding ◌+ℤ◌ ◌-ℤ◌
advance r new_tail change =
    let grown = r.size +ℤ (if ltb_ℤ change (pos 0) then change +ℤ pos buffer_size else change) in
    if ltb_ℤ (pos buffer_size) grown
    then record r { head = new_tail; size = pos buffer_size; tail = new_tail }
    else record r { size = grown; tail = new_tail }

-- `counter` is the number of bytes that the DMA channel has still to receive in this round.
pub update_pointers : RxBuffer → ℤ → RxBuffer
unfolding advance ◌-ℤ◌
update_pointers r counter =
    let new_tail = pos buffer_size -ℤ counter in
    let change = new_tail -ℤ r.tail in if eq_ℤ change (pos 0) then r else advance r new_tail change
