-- ===== src/RxBuffer/Valid.antt =====
-- The invariant of the ring, and what the two operations make of its contents.
use lwip_server.Base.{
  ℕ, ◌+◌, ◌-◌, ◌*◌, ◌%◌, ◌≤◌, ◌<◌, ◌≡◌, refl, ap, sym, ◌∙◌, List, ◌++◌, arith, length, leb,
  Bool-cases, true, inl, inr, if◌then◌else◌, min,
}
use lwip_server.Base.Int.{pos, negsuc, pos_part, neg_part}
use lwip_server.RxBuffer.{RxBuffer, buffer_size, slice, copy, update_pointers}
use lwip_server.Base.Window.{window, window-split, window-take-drop, length-window}

pub record IsValid (r : RxBuffer) : Type 0 where
  pub memory : length r.buffer ≡ buffer_size
  pub head_nonneg : neg_part r.head ≡ 0
  pub tail_nonneg : neg_part r.tail ≡ 0
  pub size_nonneg : neg_part r.size ≡ 0
  pub head_in : pos_part r.head < buffer_size
  pub tail_in : pos_part r.tail < buffer_size
  pub size_in : pos_part r.size ≤ buffer_size
  pub joined : (pos_part r.head + pos_part r.size) % buffer_size ≡ pos_part r.tail

-- The bytes received and not yet copied, oldest first.
abbrev pub contents : RxBuffer → List ℕ
contents r = window 0 r.buffer buffer_size (pos_part r.head) (pos_part r.size)

-- `copy` keeps the buffer well formed, for every size that is asked for.
pub copy-IsValid : (r : RxBuffer) (n : ℕ) → IsValid r → IsValid (copy r (pos n)).2
unfolding copy
copy-IsValid r n v = ground arith

-- `updatePointers` keeps the buffer well formed, for every counter from 1 to 128.
pub update_pointers-IsValid :
    (r : RxBuffer) (counter : ℕ)
    → 0 < counter
    → counter ≤ buffer_size
    → IsValid r
    → IsValid (update_pointers r (pos counter))
unfolding update_pointers
update_pointers-IsValid r counter lo hi v = ground arith

-- The bytes that `copy` can hand over in one piece.
abbrev pub contiguous : RxBuffer → ℕ
contiguous r = min (pos_part r.size) (buffer_size - pos_part r.head)

module _ (r : RxBuffer) (n : ℕ) (v : IsValid r) where
  count : ℕ
  count = min (contiguous r) n

  copy-count : (copy r (pos n)).1 ≡ pos count
  unfolding copy count
  copy-count = ground arith

  copy-slice : (copy r (pos n)).0 ≡ slice r (copy r (pos n)).1
  unfolding copy
  copy-slice = refl

  copy-head : pos_part (copy r (pos n)).2.head ≡ (pos_part r.head + count) % buffer_size
  unfolding copy count
  copy-head = ground arith

  copy-size : pos_part (copy r (pos n)).2.size ≡ pos_part r.size - count
  unfolding copy count
  copy-size = ground arith

  copy-buffer : (copy r (pos n)).2.buffer ≡ r.buffer
  unfolding copy
  copy-buffer = refl

  copy-window : (copy r (pos n)).0 ≡ window 0 r.buffer buffer_size (pos_part r.head) count
  unfolding count
  copy-window =
      rw (copy-slice, copy-count)
        (sym (
          window-take-drop 0 r.buffer buffer_size count (pos_part r.head) v.memory
            (omega (arith, v.head_in))))

  -- From a valid buffer `copy` hands over a front part of the contents, as much as lies in one
  -- piece and fits the caller's buffer, returns its length, and leaves the rest.
  pub copy_lem :
      let (bytes, copied, r') = copy r (pos n) in
      (bytes ++ contents r' ≡ contents r)
      × (copied ≡ pos (length bytes))
      × (length bytes ≡ min (contiguous r) n)
  unfolding count
  copy_lem = (
    rw (copy-window, copy-buffer, copy-head, copy-size)
        (window-split 0 r.buffer buffer_size count (pos_part r.size - count) (pos_part r.head)
            v.head_in
          ∙ ap (λ k. window 0 r.buffer buffer_size (pos_part r.head) k) (omega arith)),
    rw (copy-window, copy-count, length-window),
    rw (copy-window, length-window),
  )

-- The bytes that came in since the last call, if the channel has not lapped the tail.
abbrev pub arrived : RxBuffer → ℕ → ℕ
arrived r counter = (2 * buffer_size - counter - pos_part r.tail) % buffer_size

module _ (r : RxBuffer) (counter : ℕ) (lo : 0 < counter) (hi : counter ≤ buffer_size)
    (v : IsValid r) where
  update-head : pos_part (update_pointers r (pos counter)).head ≡ (
      if leb (pos_part r.size + arrived r counter) buffer_size
      then pos_part r.head
      else buffer_size - counter)
  unfolding update_pointers
  update-head = ground arith

  pub update-size : pos_part (update_pointers r (pos counter)).size ≡ (
      if leb (pos_part r.size + arrived r counter) buffer_size
      then pos_part r.size + arrived r counter
      else buffer_size)
  unfolding update_pointers
  update-size = ground arith

  pub update-buffer : (update_pointers r (pos counter)).buffer ≡ r.buffer
  unfolding update_pointers
  update-buffer = ground arith

  -- In a valid buffer, with a counter from 1 to 128: where the new bytes fit they follow the
  -- contents; else the whole memory is the contents, from the place that the channel writes next,
  -- and the oldest bytes are lost.
  pub update_pointers_lem : contents (update_pointers r (pos counter)) ≡ (
      if leb (pos_part r.size + arrived r counter) buffer_size
      then contents r ++ window 0 r.buffer buffer_size (pos_part r.tail) (arrived r counter)
      else window 0 r.buffer buffer_size (buffer_size - counter) buffer_size)
  update_pointers_lem = elim (Bool-cases (leb (pos_part r.size + arrived r counter) buffer_size)) [
    | inl fits ↦
        rw (update-head, update-size, update-buffer, fits)
          (sym (
            rw v.joined at (
              window-split 0 r.buffer buffer_size (pos_part r.size) (arrived r counter)
                (pos_part r.head) v.head_in)))
    | inr over ↦ rw (update-head, update-size, update-buffer, over)
  ]

-- A counter of 0, which the header allows, sets the tail to the end of the memory. Once the caller
-- has drained the buffer, the next call hands over up to 128 bytes that it has already had.
update_pointers_zero :
    (r : RxBuffer) (n m : ℕ)
    → IsValid r
    → r.size ≡ pos 0
    → 0 < pos_part r.tail
    → buffer_size ≤ n
    → 0 < m
    → m ≤ buffer_size
    → let drained = (copy (update_pointers r (pos 0)) (pos n)).2 in
      (drained.size ≡ pos 0)
      × ((copy drained (pos m)).1 ≡ pos m)
      × ((copy drained (pos m)).2.size ≡ negsuc (m - 1))
unfolding copy update_pointers
update_pointers_zero r n m v empty t big p q = ground arith

-- A DMA channel that is started again writes from the front of the memory, with its counter at the
-- full size, while the pointers stay. A reader that had everything then takes what lies from its
-- tail to the end of the memory for new bytes.
update_pointers_restart :
    (r : RxBuffer)
    → IsValid r
    → r.size ≡ pos 0
    → 0 < pos_part r.tail
    → contents (update_pointers r (pos buffer_size))
      ≡ window 0 r.buffer buffer_size (pos_part r.tail) (buffer_size - pos_part r.tail)
update_pointers_restart r v e t =
    let none_left : pos_part r.size ≡ 0 = ap pos_part e in
    let stale : arrived r buffer_size ≡ buffer_size - pos_part r.tail = omega (arith, v.tail_in) in
    let fits : leb (pos_part r.size + arrived r buffer_size) buffer_size ≡ true = ground arith in
    update_pointers_lem r buffer_size (omega arith) (omega arith) v
    ∙ rw (fits, none_left, stale) refl
