-- ===== src/TxBuffer.antt =====
-- The transmit buffer of include/lwipserver/utils/DmaTxBuffer.h: a ring of 1024 bytes, of which the
-- header defines the counts of the free places. `int` is ℤ, as in RxBuffer.
pub mod Free
mod Tests
use lwip_server.Base.{ℕ, ◌≡◌, Bool, ◌&&◌, not, if◌then◌else◌}
use lwip_server.Base.Int.{ℤ, pos, ◌-ℤ◌, ltb_ℤ, eq_ℤ}

-- sBufferSize
abbrev pub buffer_size : ℕ
buffer_size = 1024

-- The fields but the memory and the slice that the application was given last.
pub record TxBuffer : Type 0 where
  pub head : ℤ
  pub tail : ℤ
  pub size : ℤ

-- `mHead <= mTail && mSize != sBufferSize`
abbrev in_order : TxBuffer → Bool
in_order t = not (ltb_ℤ t.tail t.head) && not (eq_ℤ t.size (pos buffer_size))

abbrev pub empty : TxBuffer → Bool
empty t = eq_ℤ t.size (pos 0)

unfoldable pub available : TxBuffer → ℤ
unfolding ◌-ℤ◌
available t = pos buffer_size -ℤ t.size

unfoldable pub available_at_start : TxBuffer → ℤ
available_at_start t = if in_order t then t.head else pos 0

unfoldable pub available_at_end : TxBuffer → ℤ
unfolding ◌-ℤ◌
available_at_end t = if in_order t then pos buffer_size -ℤ t.tail else t.head -ℤ t.tail
