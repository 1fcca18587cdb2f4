-- ===== src/Network.antt =====
-- The network's main loop and its DHCP process, include/lwipserver/network/NetworkRTOS.h, with the
-- functions of include/lwipserver/stm32h7/Ethernetif.h that they call. lwIP and the adapter are a
-- parameter: a state that each call takes and returns. The configuration uses DHCP.
pub mod Dhcp
pub mod Phy
mod Tests
use lwip_server.Base.{ℕ, Bool, true, false, if◌then◌else◌, ltb}
use lwip_server.LoopTimer.{LoopTimer, new, set_expiry, register_callback, poll}

abbrev pub link_timer_period : ℕ
link_timer_period = 100

abbrev pub dhcp_timer_period : ℕ
dhcp_timer_period = 500

abbrev pub max_dhcp_tries : ℕ
max_dhcp_tries = 2

pub data DhcpState : Type 0 where
  off start wait_address address_assigned timeout link_down : DhcpState

pub record Ipv4 : Type 0 where
  pub addr0 : ℕ
  pub addr1 : ℕ
  pub addr2 : ℕ
  pub addr3 : ℕ

-- The three addresses that an interface is given.
pub record Addresses : Type 0 where
  pub ip_addr : Ipv4
  pub netmask : Ipv4
  pub gw : Ipv4

abbrev ip : ℕ → ℕ → ℕ → ℕ → Ipv4
ip a b c d = record { addr0 = a; addr1 = b; addr2 = c; addr3 = d }

abbrev pub static_addresses : Addresses
static_addresses = record {
  ip_addr = ip 192 168 112 10;
  netmask = ip 255 255 255 0;
  gw = ip 192 168 112 1;
}

abbrev pub no_addresses : Addresses
no_addresses = record { ip_addr = ip 0 0 0 0; netmask = ip 0 0 0 0; gw = ip 0 0 0 0 }

pub record NetApi : Type 1 where
  pub World : Type 0
  pub lwip_init : World → World
  pub netif_add : World → Addresses → World
  pub netif_set_default : World → World
  pub netif_set_link_callback : World → World
  pub is_link_up : World → Bool
  -- The three fields of the interface.
  pub put_addresses : World → Addresses → World
  pub dhcp_start : World → World
  pub dhcp_supplied_address : World → Bool
  pub dhcp_tries : World → ℕ
  pub netif_set_addr : World → Addresses → World
  -- `ethernetif_input`, `sys_check_timeouts`, and `ethernet_link_check_state`, which says whether
  -- the link callback was called.
  pub input : World → World
  pub check_timeouts : World → World
  pub link_check : World → Bool × World
  pub tick : World → ℕ × World

module _ (api : NetApi) where
  open api use {World}

  pub record Network : Type 0 where
    pub dhcp_state : DhcpState
    pub dhcp_timer : LoopTimer
    pub link_timer : LoopTimer

  -- A network as it is constructed.
  abbrev pub new_network : Network
  new_network = record { dhcp_state = link_down; dhcp_timer = new; link_timer = new }

  unfoldable pub link_status_updated : Network → World → Network
  link_status_updated n w = record n { dhcp_state = if api.is_link_up w then start else link_down }

  -- `Ethernetif::init`, whose link callback is `linkStatusUpdated`.
  unfoldable pub interface_init : Network → World → Network × World
  unfolding link_status_updated
  interface_init n w =
      let w1 = api.netif_set_default (api.netif_add w no_addresses) in
      (link_status_updated n w1, api.netif_set_link_callback w1)

  unfoldable pub init : Network → World → Network × World
  unfolding interface_init
  init n w =
      let (n1, w1) = interface_init n (api.lwip_init w) in
      (
        record n1 {
          link_timer = register_callback (set_expiry n1.link_timer link_timer_period);
          dhcp_timer = register_callback (set_expiry n1.dhcp_timer dhcp_timer_period);
        },
        w1,
      )

  -- `Ethernetif::dhcpStart`.
  unfoldable pub interface_dhcp_start : World → World
  interface_dhcp_start w = api.dhcp_start (api.put_addresses w no_addresses)

  -- `Ethernetif::setStaticIp`.
  unfoldable pub set_static_ip : World → World
  set_static_ip w = api.netif_set_addr w static_addresses

  unfoldable pub dhcp_step : DhcpState → Network → World → Network × World
  unfolding interface_dhcp_start set_static_ip
  dhcp_step start n w = (record n { dhcp_state = wait_address }, interface_dhcp_start w)
  dhcp_step wait_address n w =
      if api.dhcp_supplied_address w
      then (record n { dhcp_state = address_assigned }, w)
      else if ltb max_dhcp_tries (api.dhcp_tries w)
      then (record n { dhcp_state = timeout }, set_static_ip w)
      else (n, w)
  dhcp_step link_down n w = (record n { dhcp_state = off }, w)
  dhcp_step _ n w = (n, w)

  unfoldable pub dhcp_process : Network → World → Network × World
  unfolding dhcp_step
  dhcp_process n w = dhcp_step n.dhcp_state n w

  -- `Ethernetif::checkLinkState`, with lwIP's link callback.
  unfoldable pub check_link_state : Network → World → Network × World
  unfolding link_status_updated
  check_link_state n w =
      let (called, w1) = api.link_check w in (if called then link_status_updated n w1 else n, w1)

  unfoldable pub poll_link : Network → World → Network × World
  unfolding check_link_state
  poll_link n w =
      let (tick, w1) = api.tick w in
      let (timer, fires) = poll n.link_timer tick in
      let n1 = record n { link_timer = timer } in if fires then check_link_state n1 w1 else (n1, w1)

  unfoldable pub poll_dhcp : Network → World → Network × World
  unfolding dhcp_process
  poll_dhcp n w =
      let (tick, w1) = api.tick w in
      let (timer, fires) = poll n.dhcp_timer tick in
      let n1 = record n { dhcp_timer = timer } in if fires then dhcp_process n1 w1 else (n1, w1)

  unfoldable pub lwip_thread : Network → World → Network × World
  unfolding poll_link poll_dhcp
  lwip_thread n w =
      let w1 = api.check_timeouts (api.input w) in let (n2, w2) = poll_link n w1 in poll_dhcp n2 w2
