-- ===== src/Board.antt =====
-- What the drivers ask of the board: the concepts `Base` (include/lwipserver/concepts/Base.h) and
-- `Eth` (include/lwipserver/concepts/Eth.h). Their implementations call the vendor's HAL, which is
-- a parameter here: a state of the hardware that each call takes and returns.
use lwip_server.Base.{ℕ, ◌+◌, ◌*◌, ◌/◌, ◌%◌, ◌^◌, ◌≤◌, ◌<◌, ◌≡◌, Bool}

pub record Board : Type 1 where
  pub World : Type 0
  -- Whether the read went through, and the value of the register.
  pub read_reg : World → ℕ → ℕ → (Bool × ℕ) × World
  pub write_reg : World → ℕ → ℕ → ℕ → Bool × World
  pub tick : World → ℕ × World
  pub wait : World → ℕ → World

-- The clock behind the system tick, in microseconds and with no wrap. A register read is a frame of
-- 64 bits on the management bus, so it takes time; neither call takes as long as a quarter hour.
pub record Clock (b : Board) : Type 0 where
  pub elapsed : b.World → ℕ
  pub tick_value : (w : b.World) → (b.tick w).0 ≡ elapsed w / 1000 % 2 ^ 32
  pub tick_forward : (w : b.World) → elapsed w ≤ elapsed (b.tick w).1
  pub tick_prompt : (w : b.World) → elapsed (b.tick w).1 ≤ elapsed w + 1000 * 1000 * 1000
  pub read_forward : (w : b.World) (dev reg : ℕ) → elapsed w < elapsed (b.read_reg w dev reg).1
  pub read_prompt :
      (w : b.World) (dev reg : ℕ)
      → elapsed (b.read_reg w dev reg).1 ≤ elapsed w + 1000 * 1000 * 1000
