-- ===== src/Ethernet/LinkCheck/Tests.antt =====
-- The check on an adapter whose PHY reports 100 Mbit/s, full duplex.
use lwip_server.Base.{ℕ, refl, Bool, true, false, ◌==◌, if◌then◌else◌}
use lwip_server.Board.{Board}
use lwip_server.Lan8742.{addr_bsr, addr_bcr, get_link_state}
use lwip_server.Ethernet.LinkCheck.{MacConfig, Adapter, half_duplex, speed_10m, link_check}
use lwip_server.Ethernet.LinkCheck.Follows.{AdapterLaws, Follows, link_check-Follows}

record Port : Type 0 where
  up : Bool
  config : MacConfig

abbrev register : ℕ → ℕ
register reg = if reg == addr_bsr then 0x782D else if reg == addr_bcr then 0x1000 else 0x1058

abbrev port_board : Board
port_board = record {
  World = Port;
  read_reg = λ w dev reg. ((true, register reg), w);
  write_reg = λ w dev reg v. (true, w);
  tick = λ w. (0, w);
  wait = λ w ms. w;
}

abbrev adapter : Adapter port_board
adapter = record {
  is_link_up = λ w. w.up;
  stop = λ w. w;
  start = λ w. w;
  get_mac_config = λ w. w.config;
  set_mac_config = λ c w. record w { config = c };
  set_down = λ w. w;
  set_up = λ w. w;
  set_link_down = λ w. (w.up, record w { up = false });
  set_link_up = λ w. (true, record w { up = true });
}

abbrev adapter_laws : AdapterLaws port_board adapter
adapter_laws = record {
  link_set_up = λ w. refl;
  link_set_down = λ w. refl;
  config_set = λ c w. refl;
  config_start = λ w. refl;
  config_set_up = λ w. refl;
  config_link_up = λ w. refl;
}

abbrev unplugged : Port
unplugged = record {
  up = false;
  config = record { duplex_mode = half_duplex; speed = speed_10m; others = 3 };
}

link_check-Follows_example :
    let r = get_link_state port_board 0 unplugged in
    Follows port_board adapter adapter_laws r.0 r.1 (link_check port_board adapter 0 unplugged).1
link_check-Follows_example = link_check-Follows port_board adapter adapter_laws 0 unplugged
