-- ===== src/Lan8742/Tests.antt =====
-- The driver on a simulated board.
use lwip_server.Base.{
  ℕ, ◌+◌, ◌*◌, ◌/◌, ◌%◌, ◌^◌, ◌≤◌, ◌<◌, ◌≡◌, refl, ◌≢◌, Bool, true, none, some, arith, ◌==◌,
  if◌then◌else◌,
}
use lwip_server.Board.{Board, Clock}
use lwip_server.Lan8742.{
  ok, addr_smr, addr_bsr, addr_bcr, probe, find_address, init, get_link_state,
}
use lwip_server.Lan8742.Link.{decode, get_link_state-decode}
use lwip_server.Lan8742.Reset.{init-ne-none}

-- The registers of a PHY at address 1 whose link is up at 100 Mbit, full duplex.
abbrev register : ℕ → ℕ → ℕ
register bcr reg =
    if reg == addr_smr
    then 0xE1
    else if reg == addr_bsr
    then 0x782D
    else if reg == addr_bcr
    then bcr
    else 0x1058

-- The state of the board is its clock, in microseconds. A read takes 30 of them, on a slow board
-- 200 milliseconds more.
abbrev timed_board : ℕ → ℕ → Board
timed_board delay bcr = record {
  World = ℕ;
  read_reg = λ w dev reg. ((dev == 1, register bcr reg), w + 30 + delay);
  write_reg = λ w dev reg v. (true, w + 30);
  tick = λ w. (w / 1000 % 2 ^ 32, w + 1);
  wait = λ w ms. w + 1000 * ms;
}

abbrev board : ℕ → Board
board = timed_board 0

abbrev slow_board : ℕ → Board
slow_board = timed_board 200000

abbrev timed : (delay bcr : ℕ) → delay ≤ 200000 → Clock (timed_board delay bcr)
timed delay bcr small = record {
  elapsed = λ w. w;
  tick_value = λ w. refl;
  tick_forward = λ w. omega arith;
  tick_prompt = λ w. omega arith;
  read_forward = λ w dev reg. omega arith;
  read_prompt = λ w dev reg. omega arith;
}

abbrev at_one : ℕ → Bool
at_one a = a == 1

init_runs : (init (board 0x3100) 10 0 0).0 ≡ some ok
unfolding init find_address probe
init_runs = refl

init-ne-none_example : (init (board 0x8000) 501001 0 7).0 ≢ none
init-ne-none_example =
    init-ne-none (board 0x8000) (timed 0 0x8000 (omega arith)) 501001 0 7 (omega arith)

-- A reset bit that never clears.
readable : (w reg : ℕ) → ((1 == 1) ≡ true) × (register 0x1000 reg < 2 ^ 32)
readable w reg = ground arith

get_link_state-decode_example : (get_link_state (board 0x1000) 1 7).0 ≡ decode 0x782D 0x1000 0x1058
get_link_state-decode_example = get_link_state-decode (board 0x1000) 1 7 readable
