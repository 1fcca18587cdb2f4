-- ===== src/Ethernet/TxRing/History.antt =====
-- What becomes of the packets over time (src/stm32h7/Ethernetif.cpp): the driver sends and releases,
-- the DMA writes descriptors back, in any order.
use mathlib.Core.List.{append_assoc, append-nil}
use lwip_server.Base.{
  ℕ, zero, suc, ◌+◌, ◌%◌, ◌<◌, ◌≡◌, ◌≢◌, refl, sym, ap, ap₂, ◌∙◌, subst, some, List, [], ◌∷◌, ◌++◌,
  arith, length, set, get_or,
}
use lwip_server.Base.Window.{window}
use lwip_server.Ethernet.TxDescriptor.{TxDescriptor}
use lwip_server.Ethernet.TxRing.{
  TxRing, Packet, Err, err_ok, err_if, Effect, pbuf_ref, tx_desc_count, blank, held,
  low_level_output, release_tx_buffers,
}
use lwip_server.Ethernet.TxRing.Valid.{IsValid, under_way, payloads, pending}
use lwip_server.Ethernet.TxRing.Output.{Sends, low_level_output-Sends}
use lwip_server.Ethernet.TxRing.Release.{Released, release_tx_buffers-Released}
use lwip_server.Ethernet.TxRing.Lifetime.{write_back, write_back-IsValid}

-- The packets to which the driver takes a reference.
abbrev pub referenced : List Effect → List ℕ
referenced [] = []
referenced (pbuf_ref a ∷ es) = a ∷ referenced es
referenced (_ ∷ es) = referenced es

-- The packets referenced so far, those freed so far, and the ring. A release has as much fuel as the
-- ring has descriptors, and one round more.
pub data History (r : TxRing) : List ℕ → List ℕ → TxRing → Type 0 where
  started : History r [] [] r
  output :
      (taken freed : List ℕ) (s : TxRing) (p : Packet)
      → History r taken freed s
      → p.address ≢ 0
      → 0 < length p.bufs
      → History r (taken ++ referenced (low_level_output p s).1) freed (low_level_output p s).2
  release :
      (taken freed : List ℕ) (s : TxRing) (out : List ℕ) (t : TxRing)
      → History r taken freed s
      → release_tx_buffers 5 s ≡ some (out, t)
      → History r taken (freed ++ out) t
  dma :
      (taken freed : List ℕ) (s : TxRing) (i : ℕ) (w : ℕ × ℕ × ℕ × ℕ)
      → History r taken freed s
      → History r taken freed (write_back s i w)

pub record Balanced (taken freed : List ℕ) (s : TxRing) : Type 0 where
  pub valid : IsValid s
  pub balance : freed ++ pending s ≡ taken

held-set :
    (ds : List TxDescriptor) (i k : ℕ) (d : TxDescriptor)
    → held d ≡ held (get_or ds i blank)
    → held (get_or (set ds i d) k blank) ≡ held (get_or ds k blank)
held-set [] i k d e = refl
held-set (x ∷ ds) zero zero d e = e
held-set (x ∷ ds) zero (suc k) d e = refl
held-set (x ∷ ds) (suc i) zero d e = refl
held-set (x ∷ ds) (suc i) (suc k) d e = held-set ds i k d e

payloads-set :
    (n cap from : ℕ) (ds : List TxDescriptor) (i : ℕ) (d : TxDescriptor)
    → held d ≡ held (get_or ds i blank)
    → payloads (window blank (set ds i d) cap from n) ≡ payloads (window blank ds cap from n)
unfolding payloads
payloads-set zero cap from ds i d e = refl
payloads-set (suc n) cap from ds i d e =
    ap₂ (◌++◌) (held-set ds i from d e) (payloads-set n cap ((from + 1) % cap) ds i d e)

write_back-Balanced :
    (taken freed : List ℕ) (s : TxRing) (i : ℕ) (w : ℕ × ℕ × ℕ × ℕ)
    → Balanced taken freed s
    → Balanced taken freed (write_back s i w)
unfolding pending held
write_back-Balanced taken freed s i w b = record {
  valid = write_back-IsValid s i w b.valid;
  balance =
      ap (λ t. freed ++ t)
        (payloads-set (under_way s) tx_desc_count s.unavailable_index s.descriptors i _ refl)
      ∙ b.balance;
}

sent-Balanced :
    (taken freed : List ℕ) (s : TxRing) (p : Packet) (o : Err × List Effect × TxRing)
    → Balanced taken freed s
    → Sends p s o
    → Balanced (taken ++ referenced o.1) freed o.2
sent-Balanced taken freed s p (err_ok, effects, t) b h = record {
  valid = h.2;
  balance =
      ap (λ x. freed ++ x) h.3
      ∙ sym (append_assoc freed (pending s) (p.address ∷ []))
      ∙ ap₂ (◌++◌) b.balance (sym (ap referenced h.5));
}
sent-Balanced taken freed s p (err_if, effects, t) b h = rw (h.1, h.2, append-nil) b

released-Balanced :
    (taken freed : List ℕ) (s : TxRing) (out : List ℕ) (t : TxRing)
    → Balanced taken freed s
    → Released s (some (out, t))
    → Balanced taken (freed ++ out) t
released-Balanced taken freed s out t b h = record {
  valid = h.0;
  balance = append_assoc freed out (pending t) ∙ ap (λ x. freed ++ x) h.1 ∙ b.balance;
}

-- No packet is lost, freed twice or freed out of order. After any history of a ring that began valid
-- and without packets under way, the packets freed so far, in the order in which they were freed,
-- followed by those that are still under way, are the packets referenced so far, in the order in
-- which they were sent, and the ring is valid.
pub History-Balanced :
    (r : TxRing) (taken freed : List ℕ) (s : TxRing)
    → IsValid r
    → pending r ≡ []
    → History r taken freed s
    → Balanced taken freed s
History-Balanced r _ _ _ v e started = record { valid = v; balance = e }
History-Balanced r _ _ _ v e (output taken freed s p h nz pos) =
    let b = History-Balanced r taken freed s v e h in
    sent-Balanced taken freed s p (low_level_output p s) b
      (low_level_output-Sends p s b.valid nz pos)
History-Balanced r _ _ _ v e (release taken freed s out t h q) =
    let b = History-Balanced r taken freed s v e h in
    released-Balanced taken freed s out t b
      (subst (Released s) q (release_tx_buffers-Released 5 s b.valid (omega arith)))
History-Balanced r _ _ _ v e (dma taken freed s i w h) =
    write_back-Balanced taken freed s i w (History-Balanced r taken freed s v e h)
