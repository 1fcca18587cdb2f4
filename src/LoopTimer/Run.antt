-- ===== src/LoopTimer/Run.antt =====
-- When a timer fires: on time while its next deadline fits 32 bits, and not otherwise.
use lwip_server.Base.{ℕ, ◌+◌, ◌-◌, ◌≤◌, ◌<◌, ◌≡◌, refl, ◌≢◌, true, List, [], ◌∷◌, arith}
use lwip_server.LoopTimer.{LoopTimer, u32_mod, poll, run}

-- Ticks that follow one another without passing 2 ^ 32.
abbrev pub Rising : ℕ → List ℕ → Type 0
Rising from [] = Unit {0}
Rising from (tick ∷ ticks) = (from ≤ tick) × (tick < u32_mod) × Rising tick ticks

-- Each comes more than `gap` after the one before.
abbrev pub Spaced : ℕ → ℕ → List ℕ → Type 0
Spaced gap from [] = Unit {0}
Spaced gap from (tick ∷ ticks) = (from + gap < tick) × Spaced gap tick ticks

abbrev pub last : ℕ → List ℕ → ℕ
last from [] = from
last from (tick ∷ ticks) = last tick ticks

last-le : (from : ℕ) (ticks : List ℕ) → Rising from ticks → from ≤ last from ticks
last-le from [] h = omega arith
last-le from (tick ∷ ticks) h = omega (arith, last-le tick ticks h.2)

run-Spaced_from :
    (t : LoopTimer) (now : ℕ) (ticks : List ℕ)
    → t.has_callback ≡ true
    → t.prev_tick ≤ now
    → Rising now ticks
    → last now ticks + t.expiry < u32_mod
    → Spaced t.expiry t.prev_tick (run t ticks)
unfolding run poll
run-Spaced_from t now [] set le up fits = tt
run-Spaced_from t now (tick ∷ ticks) set le up fits = ground (
  arith,
  last-le tick ticks up.2,
  run-Spaced_from t tick ticks,
  run-Spaced_from (record t { prev_tick = tick }) tick ticks,
)

-- A run of polls calls the callback at ticks more than `expiry` apart, the first of them more than
-- `expiry` after the last call before the run, while the deadlines fit 32 bits.
pub run-Spaced :
    (t : LoopTimer) (ticks : List ℕ)
    → t.has_callback ≡ true
    → Rising t.prev_tick ticks
    → last t.prev_tick ticks + t.expiry < u32_mod
    → Spaced t.expiry t.prev_tick (run t ticks)
run-Spaced t ticks set up fits = run-Spaced_from t t.prev_tick ticks set (omega arith) up fits

run-ne-nil_from :
    (t : LoopTimer) (from : ℕ) (ticks : List ℕ)
    → t.has_callback ≡ true
    → t.prev_tick + t.expiry < u32_mod
    → from ≤ t.prev_tick + t.expiry
    → t.prev_tick + t.expiry < last from ticks
    → run t ticks ≢ []
unfolding run poll
run-ne-nil_from t from [] set fits le over = absurd (omega arith)
run-ne-nil_from t from (tick ∷ ticks) set fits le over =
    ground (arith, run-ne-nil_from t tick ticks set fits)

-- A run of polls calls the callback at least once if the last poll comes after the deadline, where
-- the callback is registered and the deadline fits 32 bits.
pub run-ne-nil :
    (t : LoopTimer) (ticks : List ℕ)
    → t.has_callback ≡ true
    → t.prev_tick + t.expiry < u32_mod
    → t.prev_tick + t.expiry < last t.prev_tick ticks
    → run t ticks ≢ []
run-ne-nil t ticks set fits over = run-ne-nil_from t t.prev_tick ticks set fits (omega arith) over

-- Ticks of 32 bits, in any order.
abbrev pub AllTicks : List ℕ → Type 0
AllTicks [] = Unit {0}
AllTicks (tick ∷ ticks) = (tick < u32_mod) × AllTicks ticks

-- The timer after a run of polls.
abbrev pub after_run : LoopTimer → List ℕ → LoopTimer
after_run t [] = t
after_run t (tick ∷ ticks) = after_run (poll t tick).0 ticks

-- Where the deadline is exactly 2 ^ 32 - 1 the callback is never called again: no poll of any
-- sequence of ticks of 32 bits calls it, also where the tick passes 2 ^ 32 and counts on from 0,
-- however often, and the timer is left as it was.
pub run_stuck :
    (t : LoopTimer) (ticks : List ℕ)
    → t.prev_tick + t.expiry ≡ u32_mod - 1
    → AllTicks ticks
    → (run t ticks ≡ []) × (after_run t ticks ≡ t)
unfolding run poll
run_stuck t [] e all = (refl, refl)
run_stuck t (tick ∷ ticks) e all =
    let (rest, left) = run_stuck t ticks e all.1 in (ground arith, ground arith)

-- Where the deadline wraps, the next ticks are taken for late ones: the callback is called at every
-- one of them, however short the time since the last call.
poll_early :
    (t : LoopTimer) (tick : ℕ)
    → t.has_callback ≡ true
    → t.expiry < t.prev_tick
    → u32_mod ≤ t.prev_tick + t.expiry
    → t.prev_tick ≤ tick
    → tick < u32_mod
    → poll t tick ≡ (record t { prev_tick = tick }, true)
unfolding poll
poll_early t tick set short wraps le lt = ground arith
