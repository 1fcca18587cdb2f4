-- ===== src/Ethernet/Reception/Tests.antt =====
-- The input loop over a pool of two buffers, each packet of which lwIP frees at once.
use lwip_server.Base.{
  ℕ, zero, suc, ◌+◌, ◌≤◌, ◌≡◌, refl, inl, true, Option, none, some, [], ◌∷◌, arith,
}
use lwip_server.Lwip.{err_mem}
use lwip_server.Ethernet.TxRing.{TxRing, blank}
use lwip_server.Ethernet.TxRing.Valid.{IsValid}
use lwip_server.Ethernet.Reception.{
  Rx, RxApi, Chain, rx_link_callback, ethernetif_input, pbuf_free_custom, rx_allocate_callback,
}
use lwip_server.Ethernet.Reception.Lengths.{IsPacket, rx_link_callback-IsPacket}
use lwip_server.Ethernet.Reception.Pool.{
  Counted, CallsBack, Step, none_yet, after, allocates, frees, Sound, ethernetif_input-Sound,
}

-- The state is the number of buffers in the pool.
abbrev take_one : ℕ → Option ℕ × ℕ
take_one zero = (none, zero)
take_one (suc n) = (some n, n)

abbrev bare : RxApi
bare = record {
  World = ℕ;
  mempool_alloc = take_one;
  mempool_free = λ w a. w + 1;
  alloced_custom = λ w a. w;
  read_data = λ rx w. (some 5, (rx, w));
  input = λ p rx w. (err_mem, (rx, w));
  pbuf_free = λ p rx w. (rx, w);
}

-- Each read takes a buffer from the pool, and each free gives one back.
abbrev driver : RxApi
driver = record bare {
  read_data = λ rx w. let r = rx_allocate_callback bare rx w in (r.0, r.1);
  pbuf_free = λ p rx w. pbuf_free_custom bare p rx w;
}

take_none : (w : ℕ) → (take_one w).0 ≡ none → (take_one w).1 ≡ 0
take_none zero h = refl
take_none (suc n) h = cc

take_fewer : (w : ℕ) → (take_one w).1 ≤ w
take_fewer zero = omega arith
take_fewer (suc n) = omega arith

abbrev counted : Counted driver
counted = record {
  available = λ w. w;
  alloc_none = take_none;
  alloc_fewer = take_fewer;
  alloced_same = λ w a. refl;
}

allocates_bare : (rx : Rx) (w : ℕ) → Step driver counted (rx, w) (driver.read_data rx w).1
unfolding rx_allocate_callback
allocates_bare rx w = allocates rx w

frees_bare : (p : ℕ) (rx : Rx) (w : ℕ) → Step driver counted (rx, w) (driver.pbuf_free p rx w)
unfolding pbuf_free_custom
frees_bare p rx w = frees p rx w

abbrev calls : CallsBack driver counted
calls = record {
  read_steps = λ rx w. after none_yet (allocates_bare rx w);
  input_steps = λ p rx w. none_yet;
  free_steps = λ p rx w. after none_yet (frees_bare p rx w);
}

abbrev idle_ring : TxRing
idle_ring = record {
  descriptors = blank ∷ blank ∷ blank ∷ blank ∷ [];
  available_index = 0;
  available_size = 4;
  unavailable_index = 0;
}

abbrev open_rx : Rx
open_rx = record { rx_buffers_available = true; ring = idle_ring }

idle_ring-IsValid : IsValid idle_ring
idle_ring-IsValid = record {
  table = refl;
  available_in = omega arith;
  unavailable_in = omega arith;
  size_in = omega arith;
  joined = refl;
}

ethernetif_input-Sound_example : Sound driver counted (ethernetif_input driver 3 open_rx 2)
ethernetif_input-Sound_example =
    ethernetif_input-Sound driver counted calls 3 open_rx 2 (inl refl, idle_ring-IsValid)

-- Two buffers of a packet, of 1000 and 500 bytes.
abbrev linked : Chain
linked = rx_link_callback 3 8 500 (
    rx_link_callback 3 6 1000 (record {
      pbufs = λ _. record { next = none; len = 0; tot_len = 0 };
      start = none;
      end = none;
    }))

linked_lengths : ((linked.pbufs 6).tot_len ≡ 1500) × ((linked.pbufs 8).tot_len ≡ 500)
unfolding rx_link_callback
linked_lengths = (refl, refl)

-- The chain with the first of them.
abbrev first_only : Chain
first_only =
    rx_link_callback 3 6 1000 (record {
      pbufs = λ _. record { next = none; len = 0; tot_len = 0 };
      start = none;
      end = none;
    })

first_only-IsPacket : IsPacket first_only ((6, 1000) ∷ [])
unfolding rx_link_callback
first_only-IsPacket = record { runs = (refl, refl, refl, refl); ends = refl; distinct = (tt, tt) }

rx_link_callback-IsPacket_example :
    IsPacket (rx_link_callback 3 8 500 first_only) ((6, 1000) ∷ (8, 500) ∷ [])
rx_link_callback-IsPacket_example =
    rx_link_callback-IsPacket 3 8 500 ((6, 1000) ∷ []) first_only first_only-IsPacket
      (ground arith, tt) (omega arith)
