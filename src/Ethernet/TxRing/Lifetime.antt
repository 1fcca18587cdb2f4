-- ===== src/Ethernet/TxRing/Lifetime.antt =====
-- The ring over time: the driver sends and releases, the DMA writes descriptors back. Once every
-- descriptor is taken the two indices are equal, which the release takes for an empty ring.
use lwip_server.Base.{
  ℕ, zero, suc, ◌<◌, ◌≡◌, ◌≢◌, sym, ap, subst, ◌∙◌, some, List, [], arith, length, set, get_or,
  length-set,
}
use lwip_server.Ethernet.TxRing.{
  TxRing, Packet, Err, err_ok, err_if, Effect, blank, low_level_output, release_tx_buffers,
}
use lwip_server.Ethernet.TxRing.Valid.{IsValid}
use lwip_server.Ethernet.TxRing.Output.{Sends, low_level_output-Sends}

-- The DMA writes back the four words of a descriptor; the application's words are not its.
abbrev pub write_back : TxRing → ℕ → ℕ × ℕ × ℕ × ℕ → TxRing
write_back r i w = record r {
  descriptors = set r.descriptors i (record (get_or r.descriptors i blank) {
    desc0 = w.0;
    desc1 = w.1;
    desc2 = w.2;
    desc3 = w.3;
  });
}

pub write_back-IsValid :
    (r : TxRing) (i : ℕ) (w : ℕ × ℕ × ℕ × ℕ) → IsValid r → IsValid (write_back r i w)
write_back-IsValid r i w v = record {
  table = length-set r.descriptors i _ ∙ v.table;
  available_in = v.available_in;
  unavailable_in = v.unavailable_in;
  size_in = v.size_in;
  joined = v.joined;
}

pub data Step (r : TxRing) : TxRing → Type 0 where
  output : (p : Packet) → p.address ≢ 0 → 0 < length p.bufs → Step r (low_level_output p r).2
  release :
      (fuel : ℕ) (freed : List ℕ) (s : TxRing)
      → release_tx_buffers fuel r ≡ some (freed, s)
      → Step r s
  dma : (i : ℕ) (w : ℕ × ℕ × ℕ × ℕ) → Step r (write_back r i w)

pub data Reach (r : TxRing) : TxRing → Type 0 where
  here : Reach r r
  next : {s t : TxRing} → Reach r s → Step s t → Reach r t

pub record IsFull (r : TxRing) : Type 0 where
  pub valid : IsValid r
  pub none_free : r.available_size ≡ 0

-- A full ring frees nothing, whatever the DMA has finished.
release-full :
    (fuel : ℕ) (freed : List ℕ) (r s : TxRing)
    → IsFull r
    → release_tx_buffers fuel r ≡ some (freed, s)
    → (freed ≡ []) × (s ≡ r)
unfolding release_tx_buffers
release-full zero freed r s f e = cc
release-full (suc fuel) freed r s f e = ground (arith, f.valid, f.none_free)

refused :
    (p : Packet) (r : TxRing) (o : Err × List Effect × TxRing)
    → IsFull r
    → 0 < length p.bufs
    → Sends p r o
    → o ≡ (err_if, [], r)
refused p r (err_ok, effects, r') f pos h = absurd (omega (arith, h.1, f.none_free))
refused p r (err_if, effects, r') f pos h = rw (h.1, h.2)

pub output-full :
    (p : Packet) (r : TxRing)
    → IsFull r
    → p.address ≢ 0
    → 0 < length p.bufs
    → low_level_output p r ≡ (err_if, [], r)
output-full p r f nz pos = refused p r _ f pos (low_level_output-Sends p r f.valid nz pos)

Step-IsFull : {r s : TxRing} → Step r s → IsFull r → IsFull s
Step-IsFull {r} (output p nz pos) f =
    subst IsFull (sym (ap (λ (o : Err × List Effect × TxRing). o.2) (output-full p r f nz pos))) f
Step-IsFull {r} (release fuel freed s e) f =
    subst IsFull (sym (release-full fuel freed r s f e).1) f
Step-IsFull {r} (dma i w) f = record {
  valid = write_back-IsValid r i w f.valid;
  none_free = f.none_free;
}

pub Reach-IsFull : {r s : TxRing} → Reach r s → IsFull r → IsFull s
Reach-IsFull here f = f
Reach-IsFull (next p st) f = Step-IsFull st (Reach-IsFull p f)

-- Once all descriptors are taken nothing frees them: after any steps of the driver and of the DMA,
-- every packet is still refused.
pub full_forever :
    {r s : TxRing} (p : Packet)
    → IsFull r
    → Reach r s
    → p.address ≢ 0
    → 0 < length p.bufs
    → low_level_output p s ≡ (err_if, [], s)
full_forever {r} {s} p f path nz pos = output-full p s (Reach-IsFull path f) nz pos
