-- ===== src/LoopTimer/Tests.antt =====
-- The timer at concrete inputs.
use lwip_server.Base.{ℕ, ◌-◌, ◌≡◌, ◌≢◌, refl, true, List, [], ◌∷◌, arith}
use lwip_server.LoopTimer.{LoopTimer, u32_mod, poll, run}
use lwip_server.LoopTimer.Run.{Spaced, run-Spaced, run-ne-nil, after_run, run_stuck}

-- The timer of Network that checks the link, set at tick 1000.
abbrev link_timer : LoopTimer
link_timer = record { expiry = 100; prev_tick = 1000; has_callback = true }

abbrev ticks : List ℕ
ticks = 1050 ∷ 1100 ∷ 1101 ∷ 1180 ∷ 1250 ∷ []

run-ticks : run link_timer ticks ≡ 1101 ∷ 1250 ∷ []
unfolding run poll
run-ticks = refl

run-Spaced_example : Spaced 100 1000 (run link_timer ticks)
run-Spaced_example = run-Spaced link_timer ticks refl (omega arith) (omega arith)

run-ne-nil_example : run link_timer ticks ≢ []
run-ne-nil_example = run-ne-nil link_timer ticks refl (omega arith) (omega arith)

-- The tick passes 2 ^ 32 and comes to 100 seconds.
abbrev wrapping : List ℕ
wrapping = (u32_mod - 60) ∷ (u32_mod - 1) ∷ 50 ∷ 100000 ∷ []

-- The next deadline would be tick 4294967295.
run_stuck_example :
    let t = record link_timer { prev_tick = u32_mod - 101 } in
    (run t wrapping ≡ []) × (after_run t wrapping ≡ t)
run_stuck_example =
    run_stuck (record link_timer { prev_tick = u32_mod - 101 }) wrapping (omega arith)
      (omega arith, (omega arith, (omega arith, (omega arith, tt))))
