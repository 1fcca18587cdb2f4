-- ===== src/TxBuffer/Free.antt =====
-- Where the free places of the transmit buffer lie.
use lwip_server.Base.{ℕ, ◌+◌, ◌-◌, ◌%◌, ◌≤◌, ◌<◌, ◌≡◌, ◌↔◌, ◌⊎◌, arith, true}
use lwip_server.Base.Int.{pos_part, neg_part}
use lwip_server.TxBuffer.{
  TxBuffer, buffer_size, empty, available, available_at_start, available_at_end,
}

pub record IsValid (t : TxBuffer) : Type 0 where
  pub head_nonneg : neg_part t.head ≡ 0
  pub tail_nonneg : neg_part t.tail ≡ 0
  pub size_nonneg : neg_part t.size ≡ 0
  pub head_in : pos_part t.head < buffer_size
  pub tail_in : pos_part t.tail < buffer_size
  pub size_in : pos_part t.size ≤ buffer_size
  pub joined : (pos_part t.head + pos_part t.size) % buffer_size ≡ pos_part t.tail

-- The place holds a byte of the data, which runs from the head round the end of the memory.
abbrev pub HoldsData : TxBuffer → ℕ → Type 0
HoldsData t i = (i + buffer_size - pos_part t.head) % buffer_size < pos_part t.size

-- The place lies in one of the two pieces that the header counts, from the start of the memory and
-- from the tail.
abbrev pub IsFree : TxBuffer → ℕ → Type 0
IsFree t i =
    (i < pos_part (available_at_start t))
    ⊎ (pos_part t.tail ≤ i) × (i < pos_part t.tail + pos_part (available_at_end t))

available_sum :
    (t : TxBuffer)
    → IsValid t
    → pos_part (available t) ≡ pos_part (available_at_start t) + pos_part (available_at_end t)
unfolding available available_at_start available_at_end
available_sum t v = ground arith

empty-available : (t : TxBuffer) → IsValid t → empty t ≡ true ↔ pos_part (available t) ≡ buffer_size
unfolding available
empty-available t v = ground arith

vacant_no_data : (t : TxBuffer) (i : ℕ) → IsValid t → i < buffer_size → IsFree t i → ¬ HoldsData t i
unfolding available_at_start available_at_end
vacant_no_data t i v h f d = ground arith

no_data_vacant : (t : TxBuffer) (i : ℕ) → IsValid t → i < buffer_size → ¬ HoldsData t i → IsFree t i
unfolding available_at_start available_at_end
no_data_vacant t i v h d = ground arith

-- The free places of the transmit buffer, in a buffer whose data runs from the head to the tail
-- round the end of the memory: a place lies in one of the two pieces that `availableAtStart` and
-- `availableAtEnd` count, from the start of the memory and from the tail, exactly when it holds no
-- data; the two counts add up to `available`; and the buffer is empty exactly when that is the
-- whole memory.
pub vacant_places :
    (t : TxBuffer) (i : ℕ)
    → IsValid t
    → i < buffer_size
    → (IsFree t i ↔ ¬ HoldsData t i)
      × (pos_part (available t) ≡ pos_part (available_at_start t) + pos_part (available_at_end t))
      × (empty t ≡ true ↔ pos_part (available t) ≡ buffer_size)
vacant_places t i v h =
    ((vacant_no_data t i v h, no_data_vacant t i v h), available_sum t v, empty-available t v)
