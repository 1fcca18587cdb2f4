-- ===== src/Ethernet/TxRing/Output.antt =====
-- `lowLevelOutput`: what is sent, what is refused, and how the ring grows.
use mathlib.Core.List.{append_assoc, append-nil}
use lwip_server.Base.{
  ℕ, ◌+◌, ◌*◌, ◌/◌, ◌%◌, ◌^◌, ◌≤◌, ◌<◌, ◌≡◌, ◌≢◌, ◌⊎◌, inl, inr, refl, ap, ◌∙◌, sym, Bool, true,
  false, Option, none, some, List, [], ◌∷◌, ◌++◌, arith, length, length-append, if◌then◌else◌, ◌==◌,
  ltb, Bool-cases,
}
use lwip_server.Ethernet.TxDescriptor.{
  TxDescriptor, Span, no_span, set_buffers, set_owned, set_first_descriptor, set_last_descriptor,
  set_app_data,
}
use lwip_server.Ethernet.TxRing.{
  TxRing, Packet, Err, err_ok, err_if, Effect, pbuf_ref, set_tail, tx_desc_count, collect, prepare,
  take_descriptor, fill, send, low_level_output, held,
}
use lwip_server.Ethernet.TxRing.Valid.{
  IsValid, pending, take_descriptor-IsValid, available_size-take_descriptor,
  pending-take_descriptor,
}

held-prepare :
    (a n : ℕ) (first last : Bool) (b c : Span) (d : TxDescriptor)
    → a ≢ 0
    → held (prepare a n first last b c d) ≡ (if last then a ∷ [] else [])
unfolding held prepare set_buffers set_owned set_first_descriptor set_last_descriptor set_app_data
held-prepare a n first last b c d h = ground arith

-- What a loop over the descriptors has done.
record Filled (a k : ℕ) (r r' : TxRing) : Type 0 where
  valid : IsValid r'
  queued : pending r' ≡ pending r ++ a ∷ []
  used : r'.available_size + (k + 1) / 2 ≡ r.available_size

module _ (a n : ℕ) (nonzero : a ≢ 0) where
  fill_last :
      (first : Bool) (b c : Span) (k : ℕ) (r : TxRing)
      → IsValid r
      → 0 < r.available_size
      → (k + 1) / 2 ≡ 1
      → Filled a k r (take_descriptor r (prepare a n first true b c))
  fill_last first b c k r v room e = record {
    valid = take_descriptor-IsValid r f v room;
    queued =
        pending-take_descriptor r f v room
        ∙ ap (λ t. pending r ++ t) (held-prepare a n first true b c _ nonzero);
    used = omega (arith, available_size-take_descriptor r f v room);
  }
    where
      f : TxDescriptor → TxDescriptor
      f = prepare a n first true b c

  fill_more :
      (first : Bool) (b c : Span) (k : ℕ) (r s : TxRing) (v : IsValid r)
      (room : 0 < r.available_size)
      → Filled a k (take_descriptor r (prepare a n first false b c)) s
      → Filled a (k + 2) r s
  fill_more first b c k r s v room rest = record {
    valid = rest.valid;
    queued =
        rest.queued
        ∙ ap (λ t. t ++ a ∷ [])
            (pending-take_descriptor r f v room
              ∙ ap (λ t. pending r ++ t) (held-prepare a n first false b c _ nonzero)
              ∙ append-nil _);
    used = omega (arith, rest.used, available_size-take_descriptor r f v room);
  }
    where
      f : TxDescriptor → TxDescriptor
      f = prepare a n first false b c

  fill-Filled :
      (bufs : List Span) (first : Bool) (r : TxRing)
      → IsValid r
      → 0 < length bufs
      → length bufs ≤ 2 * r.available_size
      → Filled a (length bufs) r (fill a n first bufs r)
  unfolding fill
  fill-Filled [] first r v pos fits = absurd (omega arith)
  fill-Filled (b ∷ []) first r v pos fits =
      fill_last first b no_span 1 r v (omega arith) (omega arith)
  fill-Filled (b ∷ c ∷ []) first r v pos fits =
      fill_last first b c 2 r v (omega arith) (omega arith)
  fill-Filled (b ∷ c ∷ d ∷ bufs) first r v pos fits =
      let e : length (b ∷ c ∷ d ∷ bufs) ≡ length (d ∷ bufs) + 2 = omega arith in
      let f = prepare a n first false b c in
      let room : 0 < r.available_size = omega arith in
      rw e (
        fill_more first b c (length (d ∷ bufs)) r _ v room (
          fill-Filled (d ∷ bufs) false (take_descriptor r f) (take_descriptor-IsValid r f v room)
            (omega arith) (omega (arith, available_size-take_descriptor r f v room))))

-- The walk keeps the whole chain, or fails if the chain is longer than the ring.
abbrev pub Collected : List Span → Option (List Span × ℕ) → Type 0
Collected bufs none = tx_desc_count < length bufs
Collected bufs (some (all, n)) = (all ≡ bufs) × (length bufs ≤ tx_desc_count)

pub collect-Collected :
    (qs bufs : List Span) (n : ℕ)
    → length bufs ≤ tx_desc_count
    → Collected (bufs ++ qs) (collect qs bufs n)
unfolding collect
collect-Collected [] bufs n h = (sym (append-nil bufs), rw append-nil h)
collect-Collected (q ∷ qs) bufs n h = elim (Bool-cases (length bufs == tx_desc_count)) [
  | inl full ↦ rw full (ground (arith, length-append bufs (q ∷ qs)))
  | inr more ↦ rw more (
      rw append_assoc at (
        collect-Collected qs (bufs ++ q ∷ []) ((n + q.size) % 2 ^ 32)
          (ground (arith, length-append bufs (q ∷ [])))))
]

-- The outcome of `lowLevelOutput` for a chain that is not empty.
abbrev pub Sends : Packet → TxRing → Err × List Effect × TxRing → Type 0
Sends p r (err_ok, effects, r') =
    (length p.bufs ≤ tx_desc_count)
    × (length p.bufs ≤ 2 * r.available_size)
    × IsValid r'
    × (pending r' ≡ pending r ++ p.address ∷ [])
    × (r'.available_size + (length p.bufs + 1) / 2 ≡ r.available_size)
    × (effects ≡ pbuf_ref p.address ∷ set_tail r'.available_index ∷ [])
Sends p r (err_if, effects, r') =
    ((tx_desc_count < length p.bufs) ⊎ (2 * r.available_size < length p.bufs))
    × (effects ≡ [])
    × (r' ≡ r)

send-Sends :
    (p : Packet) (o : Option (List Span × ℕ)) (r : TxRing)
    → IsValid r
    → p.address ≢ 0
    → 0 < length p.bufs
    → Collected p.bufs o
    → Sends p r (send p o r)
unfolding send
send-Sends p none r v nz pos c = (inl c, refl, refl)
send-Sends p (some (all, n)) r v nz pos c =
    elim (Bool-cases (ltb (r.available_size * 2 % 2 ^ 32) (length all))) [
      | inl full ↦ rw full (inr (ground (arith, v.size_in, same)), refl, refl)
      | inr fits ↦ rw fits (
          let room : length all ≤ 2 * r.available_size = ground (arith, v.size_in) in
          let done = fill-Filled p.address n nz all true r v (omega (arith, same)) room in
          (
            omega (arith, c.1, same),
            omega (arith, same),
            done.valid,
            done.queued,
            rw (← same) done.used,
            refl,
          ))
    ]
  where
    same : length all ≡ length p.bufs
    same = ap length c.0

-- A packet is sent exactly when its buffers fit the vector and the free descriptors, two to each. It
-- is then referenced once, queued behind the packets under way, the DMA is told of the new tail,
-- and the ring has lost as many descriptors as were needed. Else nothing changes.
pub low_level_output-Sends :
    (p : Packet) (r : TxRing)
    → IsValid r
    → p.address ≢ 0
    → 0 < length p.bufs
    → Sends p r (low_level_output p r)
unfolding low_level_output
low_level_output-Sends p r v nz pos =
    send-Sends p (collect p.bufs [] 0) r v nz pos (collect-Collected p.bufs [] 0 (omega arith))
