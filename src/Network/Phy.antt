-- ===== src/Network/Phy.antt =====
-- The network over the ethernet driver: the check of the link in `Ethernetif::checkLinkState`
-- (include/lwipserver/stm32h7/Ethernetif.h) is `ethernet_link_check_state` of
-- src/stm32h7/Ethernetif.cpp, which asks the PHY, and the tick is the board's.
mod Tests
use lwip_server.Base.{
  ℕ, ◌≡◌, refl, sym, ap, ◌∙◌, Bool, true, false, not, ◌&&◌, ◌||◌, Option, none, some, if◌then◌else◌,
  arith,
}
use lwip_server.Board.{Board}
use lwip_server.Lan8742.{
  Status, ok, read_error, write_error, address_error, reset_timeout, link_down, autonego_not_done,
  full_duplex_100_mbit, half_duplex_100_mbit, full_duplex_10_mbit, half_duplex_10_mbit,
  get_link_state,
}
use lwip_server.Lan8742.Link.{get_link_state_keeps}
use lwip_server.Ethernet.LinkCheck.{
  Duplex, Speed, Adapter, is_down, mode, MacConfig, bring_down, bring_up, apply_status, link_check,
}
use lwip_server.Ethernet.LinkCheck.Flag.{
  FlagLaws, settled, flag_after, called_after, flag_kept, link_check_flag,
}
use lwip_server.Network.{
  NetApi, Network, DhcpState, start, link_down as down, Addresses, link_status_updated,
  check_link_state, lwip_thread,
}
use lwip_server.Network.Dhcp.{LinkLaws, InStep, lwip_thread-InStep}

-- The rest of what the network calls.
pub record Stack (b : Board) : Type 0 where
  pub lwip_init : b.World → b.World
  pub netif_add : b.World → Addresses → b.World
  pub netif_set_default : b.World → b.World
  pub netif_set_link_callback : b.World → b.World
  pub put_addresses : b.World → Addresses → b.World
  pub dhcp_start : b.World → b.World
  pub dhcp_supplied_address : b.World → Bool
  pub dhcp_tries : b.World → ℕ
  pub netif_set_addr : b.World → Addresses → b.World
  pub input : b.World → b.World
  pub check_timeouts : b.World → b.World

-- The network over the driver, whose PHY has the address `dev`.
abbrev pub driven : (b : Board) → Adapter b → Stack b → ℕ → NetApi
driven b a s dev = record {
  World = b.World;
  lwip_init = s.lwip_init;
  netif_add = s.netif_add;
  netif_set_default = s.netif_set_default;
  netif_set_link_callback = s.netif_set_link_callback;
  is_link_up = a.is_link_up;
  put_addresses = s.put_addresses;
  dhcp_start = s.dhcp_start;
  dhcp_supplied_address = s.dhcp_supplied_address;
  dhcp_tries = s.dhcp_tries;
  netif_set_addr = s.netif_set_addr;
  input = s.input;
  check_timeouts = s.check_timeouts;
  link_check = link_check b a dev;
  tick = b.tick;
}

-- What a status of the PHY says of the link: there is none, or it cannot be read; there is one,
-- whose speed and duplex mode are known; or neither.
pub data PhyLink : Type 0 where
  no_link has_link unsettled : PhyLink

pub phy_link : Status → PhyLink
phy_link link_down = no_link
phy_link read_error = no_link
phy_link full_duplex_100_mbit = has_link
phy_link half_duplex_100_mbit = has_link
phy_link full_duplex_10_mbit = has_link
phy_link half_duplex_10_mbit = has_link
phy_link autonego_not_done = unsettled
phy_link ok = unsettled
phy_link write_error = unsettled
phy_link address_error = unsettled
phy_link reset_timeout = unsettled

-- lwIP's flag of the link after a check, by what it was before.
abbrev pub flag_of : Bool → PhyLink → Bool
flag_of up no_link = false
flag_of up has_link = true
flag_of up unsettled = up

-- The state of the DHCP process after a check, by the flag before it.
abbrev pub state_of : Bool → PhyLink → DhcpState → DhcpState
state_of true no_link s = down
state_of false has_link s = start
state_of _ _ s = s

flag_after_lem : (up : Bool) (status : Status) → flag_after up status ≡ flag_of up (phy_link status)
unfolding phy_link
flag_after_lem up status = ground arith

state_updated :
    (up : Bool) (status : Status) (s : DhcpState)
    → (if called_after up status then (if flag_after up status then start else down) else s)
      ≡ state_of up (phy_link status) s
unfolding phy_link
state_updated up status s = ground arith

module _ (b : Board) (a : Adapter b) (flags : FlagLaws b a) (s : Stack b) (dev : ℕ) where
  open b use {World}

  updated_state :
      (called : Bool) (n : Network (driven b a s dev)) (v : World)
      → (if called then link_status_updated (driven b a s dev) n v else n).dhcp_state
        ≡ (if called then (if a.is_link_up v then start else down) else n.dhcp_state)
  unfolding link_status_updated
  updated_state true n v = refl
  updated_state false n v = refl

  -- The network follows the cable. After `checkLinkState`, where lwIP calls the link callback when
  -- the link changes, lwIP's flag of the link is down if the PHY has no link or cannot be read, up if
  -- the PHY reports a link with one of the four modes, and else as it was. The DHCP process goes to
  -- its state for a link that is down if the flag was up and the PHY has no link or cannot be read,
  -- starts if the flag was down and the PHY reports one of the four modes, and else stays in its
  -- state.
  pub check_link_state-Status :
      (n : Network (driven b a s dev)) (w : World)
      → let status = (get_link_state b dev w).0 in
        let r = check_link_state (driven b a s dev) n w in
        (r.0.dhcp_state ≡ state_of (a.is_link_up w) (phy_link status) n.dhcp_state)
        × (a.is_link_up r.1 ≡ flag_of (a.is_link_up w) (phy_link status))
  unfolding check_link_state
  check_link_state-Status n w =
      let status = (get_link_state b dev w).0 in
      let r = link_check b a dev w in
      let (flag, called) = link_check_flag b a flags dev w in
      (
        updated_state r.0 n r.1
            ∙ rw (called, flag) (state_updated (a.is_link_up w) status n.dhcp_state),
        flag ∙ flag_after_lem (a.is_link_up w) status,
      )

-- The rest of lwIP leaves the flag alone too.
pub record StackLaws (b : Board) (a : Adapter b) (s : Stack b) : Type 0 where
  callback_flag : (w : b.World) → a.is_link_up (s.netif_set_link_callback w) ≡ a.is_link_up w
  put_flag : (w : b.World) (x : Addresses) → a.is_link_up (s.put_addresses w x) ≡ a.is_link_up w
  start_flag : (w : b.World) → a.is_link_up (s.dhcp_start w) ≡ a.is_link_up w
  addr_flag : (w : b.World) (x : Addresses) → a.is_link_up (s.netif_set_addr w x) ≡ a.is_link_up w
  input_flag : (w : b.World) → a.is_link_up (s.input w) ≡ a.is_link_up w
  timeouts_flag : (w : b.World) → a.is_link_up (s.check_timeouts w) ≡ a.is_link_up w
  tick_flag : (w : b.World) → a.is_link_up (b.tick w).1 ≡ a.is_link_up w

module _ (b : Board) (a : Adapter b) (flags : FlagLaws b a) (s : Stack b) (laws : StackLaws b a s)
    (dev : ℕ) where
  open b use {World}

  -- What the network expects of the check of the link, the driver's check does.
  pub driven-LinkLaws : LinkLaws (driven b a s dev)
  driven-LinkLaws = record {
    link_callback = λ w h.
        let (flag, called) = link_check_flag b a flags dev w in
        flag ∙ flag_kept (a.is_link_up w) (get_link_state b dev w).0 (sym called ∙ h);
    callback_link = laws.callback_flag;
    put_link = laws.put_flag;
    start_link = laws.start_flag;
    addr_link = laws.addr_flag;
    input_link = laws.input_flag;
    timeouts_link = laws.timeouts_flag;
    tick_link = laws.tick_flag;
  }

  -- A turn of the main loop over the driver keeps the process and the link in agreement.
  pub driven-InStep :
      (n : Network (driven b a s dev)) (w : World)
      → InStep (driven b a s dev) driven-LinkLaws n w
      → let r = lwip_thread (driven b a s dev) n w in
        InStep (driven b a s dev) driven-LinkLaws r.0 r.1
  driven-InStep = lwip_thread-InStep (driven b a s dev) driven-LinkLaws
