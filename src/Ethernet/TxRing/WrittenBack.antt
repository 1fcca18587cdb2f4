-- ===== src/Ethernet/TxRing/WrittenBack.antt =====
-- When a packet is freed (src/stm32h7/Ethernetif.cpp): a release against what the DMA has written
-- back since the descriptors were handed to it.
use lwip_server.Base.{
  ℕ, ◌+◌, ◌-◌, ◌%◌, ◌^◌, ◌<◌, ◌≡◌, refl, sym, subst, ◌∙◌, Bool, true, false, ◌&&◌, ◌||◌, ◌==◌, ltb,
  List, some, arith,
}
use lwip_server.Ethernet.TxDescriptor.{owned_by_dma}
use lwip_server.Ethernet.TxRing.{
  TxRing, Packet, tx_desc_count, low_level_output, release_tx_buffers,
}
use lwip_server.Ethernet.TxRing.Valid.{IsValid, under_way}
use lwip_server.Ethernet.TxRing.Lifetime.{write_back, write_back-IsValid}
use lwip_server.Ethernet.TxRing.Ownership.{Narrow, place, IsSafe, set_each, low_level_output-IsSafe}
use lwip_server.Ethernet.TxRing.Earned.{Earned, release_tx_buffers-Earned}

-- The descriptors that the DMA has written back since they were handed over, where those that are
-- not under way are handed over anew,
abbrev pub renew : TxRing → (ℕ → Bool) → ℕ → Bool
renew r back i =
    back i && ltb ((i + (tx_desc_count - r.unavailable_index)) % tx_desc_count) (under_way r)

-- and where one more is written back.
abbrev pub returned : ℕ → (ℕ → Bool) → ℕ → Bool
returned i back j = (i == j) || back j

-- What the driver and the DMA do, with the descriptors that the DMA has written back.
pub data Life (r : TxRing) : (ℕ → Bool) → TxRing → Type 0 where
  started : Life r (λ _. false) r
  output :
      (back : ℕ → Bool) (s : TxRing) (p : Packet)
      → Life r back s
      → Life r (renew s back) (low_level_output p s).2
  release :
      (back : ℕ → Bool) (s : TxRing) (freed : List ℕ) (t : TxRing)
      → Life r back s
      → release_tx_buffers 5 s ≡ some (freed, t)
      → Life r back t
  dma :
      (back : ℕ → Bool) (s : TxRing) (i : ℕ) (w : ℕ × ℕ × ℕ × ℕ)
      → Life r back s
      → i < tx_desc_count
      → w.3 < 2 ^ 32
      → Life r (returned i back) (write_back s i w)

and_true : (b : Bool) → (b && true) ≡ b
and_true true = refl
and_true false = refl

renew-place :
    (back : ℕ → Bool) (r : TxRing) (k : ℕ)
    → IsValid r
    → k < under_way r
    → renew r back (place r k) ≡ back (place r k)
renew-place back r k v h =
    let e : (place r k + (tx_desc_count - r.unavailable_index)) % tx_desc_count ≡ k =
      omega (arith, v.unavailable_in) in
    let inside : ltb k (under_way r) ≡ true = ground arith in
    rw (e, inside) (and_true (back (place r k)))

renew-IsSafe : (back : ℕ → Bool) (r : TxRing) → IsSafe back r → IsSafe (renew r back) r
renew-IsSafe back r s = record {
  valid = s.valid;
  narrow = s.narrow;
  watched = λ k h e. s.watched k h (sym (renew-place back r k s.valid h) ∙ e);
}

write_back-IsSafe :
    (back : ℕ → Bool) (r : TxRing) (i : ℕ) (w : ℕ × ℕ × ℕ × ℕ)
    → IsSafe back r
    → i < tx_desc_count
    → w.3 < 2 ^ 32
    → IsSafe (returned i back) (write_back r i w)
write_back-IsSafe back r i w s inside narrow = record {
  valid = write_back-IsValid r i w s.valid;
  narrow = λ j.
      set_each (λ x. x.desc3 < 2 ^ 32) r.descriptors i j _ (omega (arith, s.valid.table))
        (λ _. narrow) (λ _. s.narrow j);
  watched = λ k h e.
      set_each (λ x. owned_by_dma x ≡ true) r.descriptors i (place r k) _
        (omega (arith, s.valid.table)) (λ same. ground arith)
        (λ other. s.watched k h (ground arith));
}

Life-IsSafe :
    (r : TxRing) (back : ℕ → Bool) (s : TxRing)
    → IsValid r
    → Narrow r.descriptors
    → r.available_size ≡ tx_desc_count
    → Life r back s
    → IsSafe back s
Life-IsSafe r _ _ v narrow idle started = record {
  valid = v;
  narrow = narrow;
  watched = λ k h e. absurd (omega arith);
}
Life-IsSafe r _ _ v narrow idle (output back s p l) =
    low_level_output-IsSafe (renew s back) p s
      (renew-IsSafe back s (Life-IsSafe r back s v narrow idle l))
Life-IsSafe r _ _ v narrow idle (release back s freed t l e) =
    let safe = Life-IsSafe r back s v narrow idle l in
    (subst (Earned back s) e (release_tx_buffers-Earned back 5 s safe (omega arith))).0
Life-IsSafe r _ _ v narrow idle (dma back s i w l inside fits) =
    write_back-IsSafe back s i w (Life-IsSafe r back s v narrow idle l) inside fits

-- No packet is freed while the DMA may still read it. After any outputs, releases and write-backs
-- that began with a valid ring without packets under way, its control words within 32 bits as are
-- those that the DMA writes, a release ends, each descriptor that it gives back has been written
-- back by the DMA since it was last handed over, and the packets that it frees are exactly those
-- that these descriptors hold, oldest first.
pub Life-Earned :
    (r : TxRing) (back : ℕ → Bool) (s : TxRing)
    → IsValid r
    → Narrow r.descriptors
    → r.available_size ≡ tx_desc_count
    → Life r back s
    → Earned back s (release_tx_buffers 5 s)
Life-Earned r back s v narrow idle l =
    release_tx_buffers-Earned back 5 s (Life-IsSafe r back s v narrow idle l) (omega arith)
