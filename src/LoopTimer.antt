-- ===== src/LoopTimer.antt =====
-- The main loop's timer, include/lwipserver/utils/LoopTimer.h. The system tick and the fields are
-- `uint32_t`; what the callback does is the caller's, so a poll says only whether it is called.
pub mod Run
mod Tests
use lwip_server.Base.{ℕ, ◌+◌, ◌%◌, ◌^◌, ◌≡◌, Bool, true, false, List, [], ◌∷◌, if◌then◌else◌, ltb}

abbrev pub u32_mod : ℕ
u32_mod = 2 ^ 32

pub record LoopTimer : Type 0 where
  pub expiry : ℕ
  pub prev_tick : ℕ
  pub has_callback : Bool

abbrev pub new : LoopTimer
new = record { expiry = 0; prev_tick = 0; has_callback = false }

abbrev pub set_expiry : LoopTimer → ℕ → LoopTimer
set_expiry t expiry = record t { expiry = expiry }

abbrev pub register_callback : LoopTimer → LoopTimer
register_callback t = record t { has_callback = true }

-- The timer after a poll at `tick`, and whether the callback is called.
unfoldable pub poll : LoopTimer → ℕ → LoopTimer × Bool
poll t tick =
    if ltb ((t.prev_tick + t.expiry) % u32_mod) tick
    then (record t { prev_tick = tick }, t.has_callback)
    else (t, false)

-- A main loop polls over and over: the ticks at which it called the callback.
pub run : LoopTimer → List ℕ → List ℕ
run t [] = []
run t (tick ∷ ticks) =
    let (t', called) = poll t tick in
    let rest = run t' ticks in if called then tick ∷ rest else rest
