-- ===== src/Network/Phy/Tests.antt =====
-- The network over a PHY that reports 100 Mbit/s, full duplex.
use lwip_server.Base.{ℕ, ◌≡◌, refl, Bool, true, false, not, ◌==◌, if◌then◌else◌}
use lwip_server.Board.{Board}
use lwip_server.LoopTimer.{new}
use lwip_server.Lan8742.{addr_bsr, addr_bcr, get_link_state}
use lwip_server.Ethernet.LinkCheck.{MacConfig, Adapter, half_duplex, speed_10m}
use lwip_server.Ethernet.LinkCheck.Flag.{FlagLaws}
use lwip_server.Network.{Network, link_down, check_link_state, lwip_thread}
use lwip_server.Network.Dhcp.{InStep}
use lwip_server.Network.Phy.{
  Stack, StackLaws, driven, phy_link, state_of, flag_of, check_link_state-Status, driven-LinkLaws,
  driven-InStep,
}

record Port : Type 0 where
  up : Bool
  config : MacConfig

abbrev register : ℕ → ℕ
register reg = if reg == addr_bsr then 0x782D else if reg == addr_bcr then 0x1000 else 0x1058

abbrev port_board : Board
port_board = record {
  World = Port;
  read_reg = λ w dev reg. ((true, register reg), w);
  write_reg = λ w dev reg v. (true, w);
  tick = λ w. (0, w);
  wait = λ w ms. w;
}

abbrev adapter : Adapter port_board
adapter = record {
  is_link_up = λ w. w.up;
  stop = λ w. w;
  start = λ w. w;
  get_mac_config = λ w. w.config;
  set_mac_config = λ c w. record w { config = c };
  set_down = λ w. w;
  set_up = λ w. w;
  set_link_down = λ w. (w.up, record w { up = false });
  set_link_up = λ w. (not w.up, record w { up = true });
}

abbrev flags : FlagLaws port_board adapter
flags = record {
  read_flag = λ w dev reg. refl;
  stop_flag = λ w. refl;
  start_flag = λ w. refl;
  config_flag = λ w c. refl;
  up_flag = λ w. refl;
  down_flag = λ w. refl;
  link_up_flag = λ w. refl;
  link_down_flag = λ w. refl;
  link_up_calls = λ w. refl;
  link_down_calls = λ w. refl;
}

abbrev stack : Stack port_board
stack = record {
  lwip_init = λ w. w;
  netif_add = λ w a. w;
  netif_set_default = λ w. w;
  netif_set_link_callback = λ w. w;
  put_addresses = λ w a. w;
  dhcp_start = λ w. w;
  dhcp_supplied_address = λ w. false;
  dhcp_tries = λ w. 0;
  netif_set_addr = λ w a. w;
  input = λ w. w;
  check_timeouts = λ w. w;
}

abbrev stack_laws : StackLaws port_board adapter stack
stack_laws = record {
  callback_flag = λ w. refl;
  put_flag = λ w a. refl;
  start_flag = λ w. refl;
  addr_flag = λ w a. refl;
  input_flag = λ w. refl;
  timeouts_flag = λ w. refl;
  tick_flag = λ w. refl;
}

abbrev network : Network (driven port_board adapter stack 0)
network = record { dhcp_state = link_down; dhcp_timer = new; link_timer = new }

abbrev unplugged : Port
unplugged = record {
  up = false;
  config = record { duplex_mode = half_duplex; speed = speed_10m; others = 3 };
}

check_link_state-Status_example :
    let status = (get_link_state port_board 0 unplugged).0 in
    let r = check_link_state (driven port_board adapter stack 0) network unplugged in
    (r.0.dhcp_state ≡ state_of false (phy_link status) link_down)
    × (r.1.up ≡ flag_of false (phy_link status))
check_link_state-Status_example =
    check_link_state-Status port_board adapter flags stack 0 network unplugged

in_step :
    let t = lwip_thread (driven port_board adapter stack 0) network unplugged in
    InStep
      (driven port_board adapter stack 0)
      (driven-LinkLaws port_board adapter flags stack stack_laws 0)
      t.0
      t.1
in_step = driven-InStep port_board adapter flags stack stack_laws 0 network unplugged refl
