-- ===== src/Chip/Hal/Ends.antt =====
-- How the setup routines of src/stm32h7/Base.cpp and src/stm32h7/DebugUart.cpp can end, given what
-- their parts do.
use lwip_server.Base.{ℕ, zero, suc, ◌<◌, ◌≡◌, refl, ap, Bool, true, false, arith, if◌then◌else◌}
use lwip_server.Chip.Hal.{Hal, HalCall, Outcome, done, halted, waiting, and_then, must, await}

module _ (hal : Hal) where
  open hal use {World}

  -- A call that failed has led to this state.
  abbrev pub Refused : World → Type 0
  Refused w = (c : HalCall) × (w0 : World) × (hal.run c w0 ≡ (false, w))

  -- The routine returns, in a state with P, unless a call fails; it does not wait forever.
  abbrev pub Ends : (World → Type 0) → Outcome World → Type 0
  Ends P (done w) = P w
  Ends P (halted w) = Refused w
  Ends P (waiting w) = ⊥

  pub and_then-Ends :
      (P Q : World → Type 0) (o : Outcome World) (f : World → Outcome World)
      → Ends P o
      → ((w : World) → P w → Ends Q (f w))
      → Ends Q (and_then o f)
  and_then-Ends P Q (done w) f h k = k w h
  and_then-Ends P Q (halted w) f h k = h
  and_then-Ends P Q (waiting w) f h k = absurd h

  -- The flag is read as set once it has been read n times.
  abbrev pub Ready : ℕ → HalCall → World → Type 0
  Ready zero c w = (hal.run c w).0 ≡ true
  Ready (suc n) c w = Ready n c (hal.run c w).1

  chosen :
      (P : World → Type 0) (b : Bool) (w : World) (other : Outcome World)
      → (b ≡ true → P w)
      → (b ≡ false → Ends P other)
      → Ends P (if b then done w else other)
  chosen P true w other k r = k refl
  chosen P false w other k r = r refl

  pub await-Ends :
      (fuel n : ℕ) (c : HalCall) (w : World)
      → Ready n c w
      → n < fuel
      → Ends (λ _. Unit {0}) (await hal fuel c w)
  unfolding await
  await-Ends zero n c w r h = ground arith
  await-Ends (suc fuel) zero c w r h = rw r tt
  await-Ends (suc fuel) (suc n) c w r h =
      let w1 = (hal.run c w).1 in
      let rest = await-Ends fuel n c w1 r (omega arith) in
      chosen (λ _. Unit {0}) (hal.run c w).0 w1 (await hal fuel c w1) (λ _. tt) (λ _. rest)

  pub must-Ends :
      (P : World → Type 0) (c : HalCall) (w : World)
      → ((hal.run c w).0 ≡ true → P (hal.run c w).1)
      → Ends P (must hal c w)
  unfolding must
  must-Ends P c w k =
      let w1 = (hal.run c w).1 in
      chosen P (hal.run c w).0 w1 (halted w1) k (λ e. (c, w, ap (λ b. (b, w1)) e))
