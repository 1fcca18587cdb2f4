-- ===== src/Ethernet/Setup.antt =====
-- The setup of the network interface: `Ether`, `low_level_init` and `ethernetif_init` of
-- src/stm32h7/Ethernetif.cpp. The vendor's HAL is a parameter.
use lwip_server.Base.{ℕ, Bool, true, false, Option, none, some, List, [], ◌∷◌, if◌then◌else◌}
use Prim.Native.Nat.{bit_or}
use Prim.Native.String.{String}
use lwip_server.Board.{Board}
use lwip_server.Lwip.{Err, err_ok, err_arg}
use lwip_server.Lan8742.{init}
use lwip_server.Ethernet.LinkCheck.{Adapter, link_check}

pub record Hal : Type 1 where
  pub World : Type 0
  -- Whether the call returned HAL_OK; the register's value.
  pub read_phy_register : World → ℕ → ℕ → (Bool × ℕ) × World
  pub write_phy_register : World → ℕ → ℕ → ℕ → Bool × World
  pub tick : World → ℕ × World
  pub wait : World → ℕ → World
  pub eth_init : World → World
  pub mempool_init : World → World
  pub set_mdio_clock_range : World → World
  -- The configuration `LWIP_NETIF_HOSTNAME`.
  pub lwip_netif_hostname : Bool
  pub mac_address : List ℕ
  pub eth_hwaddr_len : ℕ
  pub eth_max_payload : ℕ
  pub flag_broadcast_etharp : ℕ

-- What the setup writes of `struct netif`.
pub record Netif : Type 0 where
  pub hostname : Option String
  pub name : List ℕ
  pub hwaddr_len : ℕ
  pub hwaddr : List ℕ
  pub mtu : ℕ
  pub flags : ℕ
  pub has_output : Bool
  pub has_linkoutput : Bool

module _ (hal : Hal) where
  abbrev pub read_reg : hal.World → ℕ → ℕ → (Bool × ℕ) × hal.World
  read_reg w dev reg =
      let (got, w1) = hal.read_phy_register w dev reg in
      (if got.0 then (true, got.1) else (false, 0), w1)

  abbrev pub write_reg : hal.World → ℕ → ℕ → ℕ → Bool × hal.World
  write_reg w dev reg v = hal.write_phy_register w dev reg v

  -- `Ether` with the clock, as the board of the PHY driver.
  abbrev pub ether : Board
  ether = record {
    World = hal.World;
    read_reg = read_reg;
    write_reg = write_reg;
    tick = hal.tick;
    wait = hal.wait;
  }

  module _ (a : Adapter ether) where
    -- The driver's address of the PHY is kept from before where none is found.
    unfoldable pub low_level_init : ℕ → ℕ → Netif → hal.World → ℕ × (Netif × hal.World)
    low_level_init fuel old n w =
        let w1 = hal.set_mdio_clock_range (hal.mempool_init (hal.eth_init w)) in
        let r = init ether fuel old w1 in
        (
          r.1,
          (
            record n {
              hwaddr_len = hal.eth_hwaddr_len;
              hwaddr = hal.mac_address;
              mtu = hal.eth_max_payload;
              flags = bit_or n.flags hal.flag_broadcast_etharp;
            },
            (link_check ether a r.1 r.2).1,
          ),
        )

    unfoldable pub ethernetif_init :
        ℕ → ℕ → Option Netif → hal.World → Err × (ℕ × (Option Netif × hal.World))
    unfolding low_level_init
    ethernetif_init fuel old none w = (err_arg, (old, (none, w)))
    ethernetif_init fuel old (some n) w =
        let n1 = record n {
          hostname = if hal.lwip_netif_hostname then some "lwipserver.local" else n.hostname;
          name = 108 ∷ 115 ∷ [];
          has_output = true;
        } in
        let (dev, (n2, w1)) = low_level_init fuel old n1 w in
        (err_ok, (dev, (some (record n2 { has_linkoutput = true }), w1)))
