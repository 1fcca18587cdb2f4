-- ===== src/TxBuffer/Tests.antt =====
-- A buffer whose data runs round the end of its memory.
use lwip_server.Base.{◌+◌, ◌≡◌, ◌↔◌, refl, true, arith}
use lwip_server.Base.Int.{pos, pos_part}
use lwip_server.TxBuffer.{TxBuffer, empty, available, available_at_start, available_at_end}
use lwip_server.TxBuffer.Free.{IsValid, HoldsData, IsFree, vacant_places}

abbrev round : TxBuffer
round = record { head = pos 1000; tail = pos 10; size = pos 34 }

round-IsValid : IsValid round
round-IsValid = record {
  head_nonneg = refl;
  tail_nonneg = refl;
  size_nonneg = refl;
  head_in = omega arith;
  tail_in = omega arith;
  size_in = omega arith;
  joined = refl;
}

vacant_places_example :
    (IsFree round 500 ↔ ¬ HoldsData round 500)
    × (990 ≡ pos_part (available_at_start round) + pos_part (available_at_end round))
    × (empty round ≡ true ↔ pos_part (available round) ≡ 1024)
unfolding available
vacant_places_example = vacant_places round 500 round-IsValid (omega arith)
