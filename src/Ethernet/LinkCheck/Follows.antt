-- ===== src/Ethernet/LinkCheck/Follows.antt =====
-- The adapter follows the PHY (`ethernet_link_check_state`, src/stm32h7/Ethernetif.cpp).
use lwip_server.Base.{ℕ, ◌≡◌, refl, ◌⊎◌, inl, inr, true, false, none, some, Bool-cases}
use lwip_server.Board.{Board}
use lwip_server.Lan8742.{
  Status, ok, read_error, write_error, address_error, reset_timeout, link_down, autonego_not_done,
  full_duplex_100_mbit, half_duplex_100_mbit, full_duplex_10_mbit, half_duplex_10_mbit,
  get_link_state,
}
use lwip_server.Ethernet.LinkCheck.{
  Duplex, full_duplex, half_duplex, Speed, speed_10m, speed_100m, MacConfig, Adapter, is_down, mode,
  bring_down, bring_up, apply_status, link_check,
}

-- The documented behaviour of the calls: lwIP keeps the flag as it was last set, and the MAC its
-- configuration.
pub record AdapterLaws (b : Board) (a : Adapter b) : Type 0 where
  pub link_set_up : (w : b.World) → a.is_link_up (a.set_link_up w).1 ≡ true
  pub link_set_down : (w : b.World) → a.is_link_up (a.set_link_down w).1 ≡ false
  pub config_set : (c : MacConfig) (w : b.World) → a.get_mac_config (a.set_mac_config c w) ≡ c
  pub config_start : (w : b.World) → a.get_mac_config (a.start w) ≡ a.get_mac_config w
  pub config_set_up : (w : b.World) → a.get_mac_config (a.set_up w) ≡ a.get_mac_config w
  pub config_link_up : (w : b.World) → a.get_mac_config (a.set_link_up w).1 ≡ a.get_mac_config w

module _ (b : Board) (a : Adapter b) (laws : AdapterLaws b a) where
  open b use {World}

  -- From w to v the link is taken down, if it was not down.
  abbrev pub Down : World → World → Type 0
  Down w v =
      ((a.is_link_up w ≡ false) × (v ≡ w)) ⊎ ((a.is_link_up w ≡ true) × (a.is_link_up v ≡ false))

  -- From w to v the link is brought up with a mode, if it was down; the MAC keeps all other settings.
  abbrev pub Up : Duplex → Speed → World → World → Type 0
  Up d s w v =
      (a.is_link_up v ≡ true)
      × (((a.is_link_up w ≡ true) × (v ≡ w))
          ⊎ ((a.is_link_up w ≡ false)
              × (a.get_mac_config v ≡ record (a.get_mac_config w) { duplex_mode = d; speed = s })))

  -- What a check that read the status of the PHY, and left it at w, does.
  pub Follows : Status → World → World → Type 0
  Follows link_down w v = Down w v
  Follows read_error w v = Down w v
  Follows full_duplex_100_mbit w v = Up full_duplex speed_100m w v
  Follows half_duplex_100_mbit w v = Up half_duplex speed_100m w v
  Follows full_duplex_10_mbit w v = Up full_duplex speed_10m w v
  Follows half_duplex_10_mbit w v = Up half_duplex speed_10m w v
  Follows autonego_not_done w v = v ≡ w
  Follows ok w v = v ≡ w
  Follows write_error w v = v ≡ w
  Follows address_error w v = v ≡ w
  Follows reset_timeout w v = v ≡ w

  apply-Down :
      (status : Status) (w : World) → is_down status ≡ true → Down w (apply_status b a status w).1
  unfolding apply_status bring_down
  apply-Down status w e = elim (Bool-cases (a.is_link_up w)) [
    | inl up ↦ rw (e, up) (inr (refl, laws.link_set_down _))
    | inr down ↦ rw (e, down) (inl (refl, refl))
  ]

  apply-Up :
      (d : Duplex) (s : Speed) (status : Status) (w : World)
      → is_down status ≡ false
      → mode status ≡ some (d, s)
      → Up d s w (apply_status b a status w).1
  unfolding apply_status bring_up
  apply-Up d s status w e m = elim (Bool-cases (a.is_link_up w)) [
    | inl up ↦ rw (e, up) (up, inl (refl, refl))
    | inr down ↦
        rw (e, down, m)
          (
            laws.link_set_up _,
            inr (
              refl,
              rw (laws.config_link_up, laws.config_set_up, laws.config_start, laws.config_set) refl,
            ),
          )
  ]

  apply-same :
      (status : Status) (w : World)
      → is_down status ≡ false
      → mode status ≡ none
      → (apply_status b a status w).1 ≡ w
  unfolding apply_status bring_up
  apply-same status w e m = elim (Bool-cases (a.is_link_up w)) [
    | inl up ↦ rw (e, up) refl
    | inr down ↦ rw (e, down, m) refl
  ]

  apply_status-Follows :
      (status : Status) (w : World) → Follows status w (apply_status b a status w).1
  unfolding Follows
  apply_status-Follows link_down w = apply-Down link_down w refl
  apply_status-Follows read_error w = apply-Down read_error w refl
  apply_status-Follows full_duplex_100_mbit w = apply-Up _ _ full_duplex_100_mbit w refl refl
  apply_status-Follows half_duplex_100_mbit w = apply-Up _ _ half_duplex_100_mbit w refl refl
  apply_status-Follows full_duplex_10_mbit w = apply-Up _ _ full_duplex_10_mbit w refl refl
  apply_status-Follows half_duplex_10_mbit w = apply-Up _ _ half_duplex_10_mbit w refl refl
  apply_status-Follows autonego_not_done w = apply-same autonego_not_done w refl refl
  apply_status-Follows ok w = apply-same ok w refl refl
  apply_status-Follows write_error w = apply-same write_error w refl refl
  apply_status-Follows address_error w = apply-same address_error w refl refl
  apply_status-Follows reset_timeout w = apply-same reset_timeout w refl refl

  -- A check of the link puts the adapter in accordance with what the PHY reports. Where the PHY has
  -- no link or cannot be read, lwIP's flag of the link is down after it, and nothing is done if it
  -- was down before. Where the PHY reports a speed and a duplex mode, the flag is up after it, and
  -- nothing is done if it was up before; if it was down, the MAC has that speed and that mode, and
  -- its other settings are as they were. With any other status of the PHY nothing is done.
  pub link_check-Follows :
      (dev : ℕ) (w : World)
      → let r = get_link_state b dev w in Follows r.0 r.1 (link_check b a dev w).1
  unfolding link_check
  link_check-Follows dev w =
      let (status, w1) = get_link_state b dev w in apply_status-Follows status w1
