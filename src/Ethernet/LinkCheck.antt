-- ===== src/Ethernet/LinkCheck.antt =====
-- The check of the link's state: `ethernet_link_check_state` of src/stm32h7/Ethernetif.cpp. The
-- MAC's HAL and lwIP's `netif` are a parameter over the board's state.
pub mod Follows
pub mod Flag
mod Tests
use lwip_server.Base.{ℕ, Bool, true, false, not, ◌&&◌, Option, none, some, if◌then◌else◌}
use lwip_server.Board.{Board}
use lwip_server.Lan8742.{
  Status, read_error, link_down, full_duplex_100_mbit, half_duplex_100_mbit, full_duplex_10_mbit,
  half_duplex_10_mbit, get_link_state,
}

pub data Duplex : Type 0 where
  full_duplex half_duplex : Duplex

pub data Speed : Type 0 where
  speed_10m speed_100m : Speed

-- `ETH_MACConfigTypeDef`; `others` stands for the fields that the code leaves alone.
pub record MacConfig : Type 0 where
  pub duplex_mode : Duplex
  pub speed : Speed
  pub others : ℕ

pub record Adapter (b : Board) : Type 0 where
  pub is_link_up : b.World → Bool
  pub stop : b.World → b.World
  pub start : b.World → b.World
  pub get_mac_config : b.World → MacConfig
  pub set_mac_config : MacConfig → b.World → b.World
  pub set_down : b.World → b.World
  pub set_up : b.World → b.World
  -- The first component says whether lwIP calls the link callback.
  pub set_link_down : b.World → Bool × b.World
  pub set_link_up : b.World → Bool × b.World

abbrev pub is_down : Status → Bool
is_down link_down = true
is_down read_error = true
is_down _ = false

-- The `switch` on the status: duplex and speed, when `linkchanged` is set.
abbrev pub mode : Status → Option (Duplex × Speed)
mode full_duplex_100_mbit = some (full_duplex, speed_100m)
mode half_duplex_100_mbit = some (half_duplex, speed_100m)
mode full_duplex_10_mbit = some (full_duplex, speed_10m)
mode half_duplex_10_mbit = some (half_duplex, speed_10m)
mode _ = none

module _ (b : Board) (a : Adapter b) where
  open b use {World}

  unfoldable pub bring_down : World → Bool × World
  bring_down w = a.set_link_down (a.set_down (a.stop w))

  unfoldable pub bring_up : Option (Duplex × Speed) → World → Bool × World
  bring_up none w = (false, w)
  bring_up (some (duplex, speed)) w =
      let conf = record (a.get_mac_config w) { duplex_mode = duplex; speed = speed } in
      a.set_link_up (a.set_up (a.start (a.set_mac_config conf w)))

  unfoldable pub apply_status : Status → World → Bool × World
  unfolding bring_down bring_up
  apply_status status w =
      if a.is_link_up w && is_down status
      then bring_down w
      else if not (a.is_link_up w) && not (is_down status)
      then bring_up (mode status) w
      else (false, w)

  -- Whether lwIP calls the link callback, which is the last thing that happens.
  unfoldable pub link_check : ℕ → World → Bool × World
  unfolding apply_status
  link_check dev w = let (status, w1) = get_link_state b dev w in apply_status status w1
