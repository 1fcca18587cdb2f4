-- ===== src/Ethernet/Pins/Rmii.antt =====
-- The pins after `HAL_ETH_MspInit` (src/stm32h7/Ethernetif.cpp).
use lwip_server.Base.{
  ℕ, ◌<◌, ◌≡◌, ◌||◌, Bool, true, false, Option, some, List, [], ◌∷◌, ◌==◌, if◌then◌else◌, refl,
  ==_iff,
}
use lwip_server.Base.Bits.{bit, all_below, all_below-eq}
use lwip_server.Chip.Hal.{
  HalCall, Port, Alternate, port_a, port_b, port_c, port_d, port_g, af11_eth, gpio_clock, gpio_init,
}
use lwip_server.Ethernet.Pins.{msp_init}

-- What the vendor documents of the pins: a pin can be configured once its port has its clock, and
-- `HAL_GPIO_Init` gives the function to each pin whose bit is set.
pub record Gpio : Type 0 where
  pub has_clock : Port → Bool
  pub function : Port → ℕ → Option Alternate

abbrev pub port_index : Port → ℕ
port_index port_a = 0
port_index port_b = 1
port_index port_c = 2
port_index port_d = 3
port_index port_g = 6

abbrev same : Port → Port → Bool
same p q = port_index p == port_index q

abbrev pub call : HalCall → Gpio → Gpio
call (gpio_clock p) g = record g { has_clock = λ q. if same p q then true else g.has_clock q }
call (gpio_init p i) g = record g {
  function = λ q k.
      if same p q
      then if g.has_clock q
        then if bit i.pin k == 1 then some i.alternate else g.function q k
        else g.function q k
      else g.function q k;
}
call _ g = g

abbrev pub calls : List HalCall → Gpio → Gpio
calls [] g = g
calls (c ∷ cs) g = calls cs (call c g)

-- The pins of the reduced media-independent interface, as the comment in the routine lists them:
-- PA1, PA2, PA7, PB13, PC1, PC4, PC5, PG11 and PG13.
abbrev pub is_rmii : Port → ℕ → Bool
is_rmii port_a k = k == 1 || k == 2 || k == 7
is_rmii port_b k = k == 13
is_rmii port_c k = k == 1 || k == 4 || k == 5
is_rmii port_d k = false
is_rmii port_g k = k == 11 || k == 13

-- The pins of a port together, as the routine names them.
abbrev mask : Port → ℕ
mask port_a = 134
mask port_b = 8192
mask port_c = 50
mask port_d = 0
mask port_g = 10240

abbrev flag : Bool → ℕ
flag true = 1
flag false = 0

mask-table : (p : Port) → all_below 16 (λ k. bit (mask p) k == flag (is_rmii p k)) ≡ true
unfolding all_below
mask-table port_a = refl
mask-table port_b = refl
mask-table port_c = refl
mask-table port_d = refl
mask-table port_g = refl

mask-is_rmii : (p : Port) (k : ℕ) → k < 16 → bit (mask p) k ≡ flag (is_rmii p k)
mask-is_rmii p k lt = (==_iff _ _).0 (all_below-eq 16 _ k (mask-table p) lt)

by_flag :
    (b : Bool) (n : ℕ) (x y : Option Alternate)
    → n ≡ flag b
    → (if n == 1 then x else y) ≡ (if b then x else y)
by_flag true n x y e = rw e refl
by_flag false n x y e = rw e refl

-- After `HAL_ETH_MspInit`, whatever the pins did: the nine pins that the comment lists have the
-- ethernet function, and every other of the sixteen pins of each port has the function it had.
pub msp_init-function :
    (g : Gpio) (p : Port) (k : ℕ)
    → k < 16
    → (calls msp_init g).function p k ≡ (if is_rmii p k then some af11_eth else g.function p k)
unfolding msp_init
msp_init-function g port_a k h = by_flag (is_rmii port_a k) _ _ _ (mask-is_rmii port_a k h)
msp_init-function g port_b k h = by_flag (is_rmii port_b k) _ _ _ (mask-is_rmii port_b k h)
msp_init-function g port_c k h = by_flag (is_rmii port_c k) _ _ _ (mask-is_rmii port_c k h)
msp_init-function g port_d k h = refl
msp_init-function g port_g k h = by_flag (is_rmii port_g k) _ _ _ (mask-is_rmii port_g k h)
