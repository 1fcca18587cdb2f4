-- ===== src/Lan8742/Reset.antt =====
-- The polling for the end of the reset stops: the clock moves on with every read, and the code
-- measures the time with a subtraction that wraps as the tick does.
use lwip_server.Base.{
  ℕ, zero, suc, ◌+◌, ◌-◌, ◌/◌, ◌%◌, ◌^◌, ◌≤◌, ◌<◌, ◌≡◌, ◌≢◌, refl, Bool, Option, none, some, arith,
  Bool-cases, inl, inr,
}
use lwip_server.Board.{Board, Clock}
use lwip_server.Lan8742.{
  Status, ok, reset_timeout, addr_bcr, mask_bcr_softreset, await_reset, settle, reset, init_at,
  init, find_address,
}

-- Rounds of the loop that suffice: one for each microsecond of the timeout, and one more.
abbrev pub enough_fuel : ℕ
enough_fuel = 501001

-- The wrapping subtraction gives the milliseconds that passed, if those are less than 2 ^ 32.
passed :
    (t0 t : ℕ) → t0 ≤ t → t < t0 + 2 ^ 32 → (t % 2 ^ 32 + 2 ^ 32 - t0 % 2 ^ 32) % 2 ^ 32 ≡ t - t0
passed t0 t le lt = omega arith

module _ (b : Board) (clock : Clock b) where
  open b use {World, tick, read_reg}
  open clock use {elapsed}

  await_reset-ne-none :
      (fuel e0 start dev : ℕ) (w : World)
      → start ≡ e0 / 1000 % 2 ^ 32
      → e0 ≤ elapsed w
      → elapsed w ≤ e0 + 1000000000 + 502000
      → e0 + 501001 ≤ elapsed w + fuel
      → 0 < fuel
      → (await_reset b fuel start dev w).0 ≢ none
  unfolding await_reset
  await_reset-ne-none zero e0 start dev w e lo hi f pos = absurd (omega arith)
  await_reset-ne-none (suc fuel) e0 start dev w e lo hi f pos = ground (
    arith,
    clock.read_forward w dev addr_bcr,
    clock.read_prompt w dev addr_bcr,
    clock.tick_value (read_reg w dev addr_bcr).1,
    clock.tick_forward (read_reg w dev addr_bcr).1,
    clock.tick_prompt (read_reg w dev addr_bcr).1,
    passed (e0 / 1000) (elapsed (read_reg w dev addr_bcr).1 / 1000),
    await_reset-ne-none fuel e0 start dev (tick (read_reg w dev addr_bcr).1).1 e,
  )

  await_reset_late :
      (fuel e0 start dev : ℕ) (w : World)
      → start ≡ e0 / 1000 % 2 ^ 32
      → e0 ≤ elapsed w
      → elapsed w ≤ e0 + 1000000000 + 502000
      → (await_reset b fuel start dev w).0 ≡ some reset_timeout
      → e0 + 500000 < elapsed (await_reset b fuel start dev w).1
  unfolding await_reset
  await_reset_late zero e0 start dev w e lo hi f = cc
  await_reset_late (suc fuel) e0 start dev w e lo hi f = ground (
    arith,
    clock.read_forward w dev addr_bcr,
    clock.read_prompt w dev addr_bcr,
    clock.tick_value (read_reg w dev addr_bcr).1,
    clock.tick_forward (read_reg w dev addr_bcr).1,
    clock.tick_prompt (read_reg w dev addr_bcr).1,
    passed (e0 / 1000) (elapsed (read_reg w dev addr_bcr).1 / 1000),
    await_reset_late fuel e0 start dev (tick (read_reg w dev addr_bcr).1).1 e,
  )

  settle-ne-none : (r : Option Status × World) → r.0 ≢ none → (settle b r).0 ≢ none
  unfolding settle
  settle-ne-none (none, w) h = h
  settle-ne-none (some ok, w) h = λ e. cc
  settle-ne-none (some s, w) h = h

  reset-ne-none : (fuel dev : ℕ) (w : World) → enough_fuel ≤ fuel → (reset b fuel dev w).0 ≢ none
  unfolding reset
  reset-ne-none fuel dev w h = elim (Bool-cases written.0) [
    | inl done ↦ rw done (
        settle-ne-none (await_reset b fuel (tick w1).0 dev (tick w1).1) (
          await_reset-ne-none fuel (elapsed w1) (tick w1).0 dev (tick w1).1 (clock.tick_value w1)
            (clock.tick_forward w1) (omega (arith, clock.tick_prompt w1))
            (omega (arith, clock.tick_forward w1)) (omega arith)))
    | inr failed ↦ rw failed (λ e. cc)
  ]
    where
      written : Bool × World
      written = b.write_reg w dev addr_bcr mask_bcr_softreset

      w1 : World
      w1 = written.1

  settle-timeout :
      (r : Option Status × World)
      → (settle b r).0 ≡ some reset_timeout
      → (r.0 ≡ some reset_timeout) × ((settle b r).1 ≡ r.1)
  unfolding settle
  settle-timeout (none, w) h = cc
  settle-timeout (some ok, w) h = cc
  settle-timeout (some s, w) h = (h, refl)

  -- A reset timeout is reported only once more than 500 ms have passed since the reset was written.
  pub reset_timeout_late :
      (fuel dev : ℕ) (w : World)
      → (reset b fuel dev w).0 ≡ some reset_timeout
      → elapsed (b.write_reg w dev addr_bcr mask_bcr_softreset).1 + 500000
        < elapsed (reset b fuel dev w).1
  unfolding reset
  reset_timeout_late fuel dev w = elim (Bool-cases written.0) [
    | inl done ↦ rw done (λ h.
        let s = settle-timeout polled h in
        rw s.1 (
          await_reset_late fuel (elapsed w1) (tick w1).0 dev (tick w1).1 (clock.tick_value w1)
            (clock.tick_forward w1) (omega (arith, clock.tick_prompt w1)) s.0))
    | inr failed ↦ rw failed (λ h. cc)
  ]
    where
      written : Bool × World
      written = b.write_reg w dev addr_bcr mask_bcr_softreset

      w1 : World
      w1 = written.1

      polled : Option Status × World
      polled = await_reset b fuel (tick w1).0 dev (tick w1).1

  -- `init` ends on every board whose clock runs: `enough_fuel` rounds of the polling loop suffice.
  pub init-ne-none : (fuel old : ℕ) (w : World) → enough_fuel ≤ fuel → (init b fuel old w).0 ≢ none
  unfolding init init_at
  init-ne-none fuel old w h = go (find_address b 32 0 w)
    where
      go : (r : Option ℕ × World) → (init_at b fuel old r).0 ≢ none
      go (none, w) = λ e. cc
      go (some dev, w) = reset-ne-none fuel dev w h
