-- ===== src/Chip/Vectors/Served.antt =====
-- Which interrupts are served (src/stm32h7/Vectors.cpp), and that those are the ones that
-- `debugUartInit` of src/stm32h7/DebugUart.cpp lets through.
use lwip_server.Base.{
  ℕ, zero, suc, ◌+◌, ◌<◌, ◌≡◌, refl, ap, ◌∙◌, Bool, ◌||◌, ◌&&◌, List, [], ◌∷◌, Option, none, some,
  map, ◌++◌, get_elem?, length, leb, arith, ◌==◌, if◌then◌else◌,
}
use lwip_server.DebugUart.{DebugUartConfig}
use lwip_server.DebugUart.Setup.{interrupts}
use lwip_server.Chip.Hal.{HalCall, Irq, irq_dma1_stream0, irq_dma1_stream1, irq_usart3, enable_irq}
use lwip_server.Chip.Vectors.{
  Entry, Handler, loops, serves_uart, serves_tx_dma, serves_rx_dma, exceptions, lower_interrupts,
  upper_interrupts, linked, raised, raised_from,
}

-- The numbers of the interrupts, as the vendor's description STM32H743x.svd lists them.
abbrev pub irq_number : Irq → ℕ
irq_number irq_dma1_stream0 = 11
irq_number irq_dma1_stream1 = 12
irq_number irq_usart3 = 39

abbrev pub enabled : List HalCall → List ℕ
enabled [] = []
enabled (enable_irq i ∷ cs) = irq_number i ∷ enabled cs
enabled (_ ∷ cs) = enabled cs

-- The numbers below 150 at which that description lists no interrupt.
abbrev pub is_unlisted : ℕ → Bool
is_unlisted k =
    k == 42
    || leb 64 k && leb k 67
    || k == 79
    || k == 80
    || k == 123
    || k == 126
    || k == 145
    || k == 147
    || k == 148

-- Three interrupts have a handler. Where the table differs from the description it is at 143, empty
-- although listed, and at 80 and 145, in use although not listed.
abbrev pub served : ℕ → Option Handler
served k =
    if k == 11
    then some serves_tx_dma
    else if k == 12
    then some serves_rx_dma
    else if k == 39
    then some serves_uart
    else if k == 143
    then none
    else if k == 80 || k == 145
    then some loops
    else if is_unlisted k
    then none
    else some loops

abbrev count_from : ℕ → ℕ → List ℕ
count_from k zero = []
count_from k (suc n) = k ∷ count_from (k + 1) n

linked-served : map linked (lower_interrupts ++ upper_interrupts) ≡ map served (count_from 0 150)
unfolding linked
linked-served = refl

abbrev unwrap : Option (Option Handler) → Option Handler
unwrap none = none
unwrap (some h) = h

raised_from-map :
    (es : List Entry) (k : ℕ) → raised_from (get_elem? es k) ≡ unwrap (get_elem? (map linked es) k)
raised_from-map [] k = refl
raised_from-map (e ∷ es) zero = refl
raised_from-map (e ∷ es) (suc k) = raised_from-map es k

get_elem?-count_from :
    (n a k : ℕ) → k < n → get_elem? (map served (count_from a n)) k ≡ some (served (a + k))
get_elem?-count_from zero a k h = absurd (omega arith)
get_elem?-count_from (suc n) a zero h =
    let e : a ≡ a + 0 = omega arith in ap (λ i. some (served i)) e
get_elem?-count_from (suc n) a (suc k) h =
    let e : a + 1 + k ≡ a + suc k = omega arith in
    get_elem?-count_from n (a + 1) k (omega arith) ∙ ap (λ i. some (served i)) e

get_elem?-append_right :
    (xs ys : List Entry) (k : ℕ) → get_elem? (xs ++ ys) (length xs + k) ≡ get_elem? ys k
get_elem?-append_right [] ys k = ap (get_elem? ys) (omega arith)
get_elem?-append_right (x ∷ xs) ys k =
    let e : suc (length xs) + k ≡ suc (length xs + k) = omega arith in
    rw e (get_elem?-append_right xs ys k)

raised-served : (k : ℕ) → k < 150 → raised (16 + k) ≡ served k
unfolding raised
raised-served k h =
    let es = lower_interrupts ++ upper_interrupts in
    let zero_first : 0 + k ≡ k = omega arith in
    ap raised_from (get_elem?-append_right exceptions es k)
    ∙ raised_from-map es k
    ∙ ap (λ hs. unwrap (get_elem? hs k)) linked-served
    ∙ ap unwrap (get_elem?-count_from 150 0 k h)
    ∙ ap served zero_first

-- For each of the 150 numbers of interrupts: 11, 12 and 39 run a handler that serves a device, the
-- two DMA channels and the UART, each at its number in the vendor's description STM32H743x.svd. All
-- others that the description lists run an endless loop, but 143, the window watchdog's reset, where
-- the table is empty. The numbers that it does not list are empty too, but 80 and 145, which run the
-- loop. Those three are the ones that `debugUartInit` lets through, with every configuration, so no
-- interrupt that it lets through ends in the loop or at an empty place.
pub debug_uart_init-served :
    (config : DebugUartConfig) (k : ℕ)
    → k < 150
    → (raised (16 + k) ≡ served k) × (enabled (interrupts config) ≡ 11 ∷ 12 ∷ 39 ∷ [])
debug_uart_init-served config k h = (raised-served k h, ground arith)
