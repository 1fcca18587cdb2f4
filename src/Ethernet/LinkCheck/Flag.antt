-- ===== src/Ethernet/LinkCheck/Flag.antt =====
-- What a check of the link makes of lwIP's flag (`ethernet_link_check_state`,
-- src/stm32h7/Ethernetif.cpp), and when lwIP calls the link callback.
use lwip_server.Base.{
  ℕ, ◌≡◌, refl, Bool, true, false, not, ◌&&◌, ◌||◌, Option, none, some, if◌then◌else◌, arith,
}
use lwip_server.Board.{Board}
use lwip_server.Lan8742.{Status, get_link_state}
use lwip_server.Lan8742.Link.{get_link_state_keeps}
use lwip_server.Ethernet.LinkCheck.{
  Duplex, Speed, Adapter, is_down, mode, MacConfig, bring_down, bring_up, apply_status, link_check,
}

-- lwIP calls the link callback when the flag of a link changes; the MAC, the management bus and the
-- calls that start and stop the interface leave the flag alone.
pub record FlagLaws (b : Board) (a : Adapter b) : Type 0 where
  pub read_flag :
      (w : b.World) (dev reg : ℕ) → a.is_link_up (b.read_reg w dev reg).1 ≡ a.is_link_up w
  pub stop_flag : (w : b.World) → a.is_link_up (a.stop w) ≡ a.is_link_up w
  pub start_flag : (w : b.World) → a.is_link_up (a.start w) ≡ a.is_link_up w
  pub config_flag :
      (w : b.World) (c : MacConfig) → a.is_link_up (a.set_mac_config c w) ≡ a.is_link_up w
  pub up_flag : (w : b.World) → a.is_link_up (a.set_up w) ≡ a.is_link_up w
  pub down_flag : (w : b.World) → a.is_link_up (a.set_down w) ≡ a.is_link_up w
  pub link_up_flag : (w : b.World) → a.is_link_up (a.set_link_up w).1 ≡ true
  pub link_down_flag : (w : b.World) → a.is_link_up (a.set_link_down w).1 ≡ false
  pub link_up_calls : (w : b.World) → (a.set_link_up w).0 ≡ not (a.is_link_up w)
  pub link_down_calls : (w : b.World) → (a.set_link_down w).0 ≡ a.is_link_up w

-- The PHY has a link and knows its mode.
abbrev pub settled : Option (Duplex × Speed) → Bool
settled none = false
settled (some m) = true

-- The flag of the link after a check that read `status`.
abbrev pub flag_after : Bool → Status → Bool
flag_after up status = if is_down status then false else up || settled (mode status)

-- Whether lwIP calls the link callback in that check.
abbrev pub called_after : Bool → Status → Bool
called_after true status = is_down status
called_after false status = not (is_down status) && settled (mode status)

module _ (b : Board) (a : Adapter b) (flags : FlagLaws b a) where
  open b use {World}

  bring_up_flag :
      (x : Duplex) (y : Speed) (w : World)
      → a.is_link_up w ≡ false
      → let r = bring_up b a (some (x, y)) w in (a.is_link_up r.1 ≡ true) × (r.0 ≡ true)
  unfolding bring_up
  bring_up_flag x y w d = (
    flags.link_up_flag _,
    rw (flags.link_up_calls, flags.up_flag, flags.start_flag, flags.config_flag, d) refl,
  )

  bring_down_flag :
      (w : World)
      → a.is_link_up w ≡ true
      → let r = bring_down b a w in (a.is_link_up r.1 ≡ false) × (r.0 ≡ true)
  unfolding bring_down
  bring_down_flag w u =
      (flags.link_down_flag _, rw (flags.link_down_calls, flags.down_flag, flags.stop_flag, u) refl)

  apply_status_flag :
      (up down : Bool) (o : Option (Duplex × Speed)) (status : Status) (w : World)
      → a.is_link_up w ≡ up
      → is_down status ≡ down
      → mode status ≡ o
      → let r = apply_status b a status w in
        (a.is_link_up r.1 ≡ flag_after up status) × (r.0 ≡ called_after up status)
  unfolding apply_status
  apply_status_flag true true o status w u d m = rw (u, d) (bring_down_flag w u)
  apply_status_flag true false o status w u d m = rw (u, d) (u, refl)
  apply_status_flag false true o status w u d m = rw (u, d) (u, refl)
  apply_status_flag false false none status w u d m = unfold bring_up in rw (u, d, m) (u, refl)
  apply_status_flag false false (some (x, y)) status w u d m = rw (u, d, m) (bring_up_flag x y w u)

  pub link_check_flag :
      (dev : ℕ) (w : World)
      → let status = (get_link_state b dev w).0 in
        let r = link_check b a dev w in
        (a.is_link_up r.1 ≡ flag_after (a.is_link_up w) status)
        × (r.0 ≡ called_after (a.is_link_up w) status)
  unfolding link_check
  link_check_flag dev w =
      let r = get_link_state b dev w in
      let kept = get_link_state_keeps b Bool a.is_link_up flags.read_flag dev w in
      rw (← kept) (apply_status_flag _ _ _ r.0 r.1 refl refl refl)

pub flag_kept :
    (up : Bool) (status : Status) → called_after up status ≡ false → flag_after up status ≡ up
flag_kept up status h = ground arith
