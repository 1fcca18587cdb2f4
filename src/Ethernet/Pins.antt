-- ===== src/Ethernet/Pins.antt =====
-- `HAL_ETH_MspInit` of src/stm32h7/Ethernetif.cpp: the pins and clocks of the ethernet peripheral.
pub mod Rmii
use lwip_server.Base.{ℕ, ◌^◌, List, [], ◌∷◌}
use Prim.Native.Nat.{bit_or}
use lwip_server.Chip.Hal.{
  HalCall, GpioInit, port_a, port_b, port_c, port_g, no_pull, speed_high, af11_eth, gpio_clock,
  gpio_init, eth_mac_clock, eth_tx_clock, eth_rx_clock,
}

abbrev pub gpio_pin : ℕ → ℕ
gpio_pin n = 2 ^ n

abbrev pub eth_pins : ℕ → GpioInit
eth_pins mask = record { pin = mask; pull = no_pull; speed = speed_high; alternate = af11_eth }

unfoldable pub msp_init : List HalCall
msp_init =
    gpio_clock port_a
    ∷ gpio_clock port_b
    ∷ gpio_clock port_c
    ∷ gpio_clock port_g
    ∷ gpio_init port_a (eth_pins (bit_or (bit_or (gpio_pin 1) (gpio_pin 2)) (gpio_pin 7)))
    ∷ gpio_init port_b (eth_pins (gpio_pin 13))
    ∷ gpio_init port_c (eth_pins (bit_or (bit_or (gpio_pin 1) (gpio_pin 4)) (gpio_pin 5)))
    ∷ gpio_init port_g (eth_pins (bit_or (gpio_pin 11) (gpio_pin 13)))
    ∷ eth_mac_clock
    ∷ eth_tx_clock
    ∷ eth_rx_clock
    ∷ []
