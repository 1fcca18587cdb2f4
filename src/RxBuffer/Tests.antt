-- ===== src/RxBuffer/Tests.antt =====
-- The ring at concrete inputs.
use lwip_server.Base.{ℕ, ◌≡◌, refl, List, ◌∷◌, [], arith, replicate, ◌++◌}
use lwip_server.Base.Int.{pos}
use lwip_server.RxBuffer.{RxBuffer, new, copy}
use lwip_server.RxBuffer.Queue.{Steps, receive, read, operate_all, new-Steps}
use lwip_server.RxBuffer.Valid.{IsValid, contents}

abbrev memory : List ℕ
memory = 11 ∷ 12 ∷ 13 ∷ replicate 123 0 ++ 98 ∷ 99 ∷ []

-- Two bytes before the end of the memory and three after it.
abbrev wrapped : RxBuffer
wrapped = record { buffer = memory; head = pos 126; tail = pos 3; size = pos 5 }

abbrev drained : RxBuffer
drained = record wrapped { head = pos 3; size = pos 0 }

wrapped-IsValid : IsValid wrapped
wrapped-IsValid = record {
  memory = refl;
  head_nonneg = refl;
  tail_nonneg = refl;
  size_nonneg = refl;
  head_in = omega arith;
  tail_in = omega arith;
  size_in = omega arith;
  joined = refl;
}

drained-IsValid : IsValid drained
drained-IsValid = record {
  memory = refl;
  head_nonneg = refl;
  tail_nonneg = refl;
  size_nonneg = refl;
  head_in = omega arith;
  tail_in = omega arith;
  size_in = omega arith;
  joined = refl;
}

copy_stops_at_end : (copy wrapped (pos 64)).0 ≡ 98 ∷ 99 ∷ []
unfolding copy
copy_stops_at_end = refl

new-Steps_example :
    let os = receive (7 ∷ 8 ∷ 9 ∷ []) ∷ read 2 ∷ read 64 ∷ [] in
    let (outs, r) = operate_all os (new memory) in Steps [] os outs (contents r)
new-Steps_example =
    new-Steps (receive (7 ∷ 8 ∷ 9 ∷ []) ∷ read 2 ∷ read 64 ∷ []) memory refl
      (omega arith, (tt, (tt, tt)))
