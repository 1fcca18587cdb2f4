-- ===== src/Ethernet/TxRing/Ownership.antt =====
-- Which descriptors the DMA still owns (src/stm32h7/Ethernetif.cpp): the driver hands each descriptor
-- over when it is prepared, and gives it back only after the DMA has written it back.
use lwip_server.Base.{
  ℕ, zero, suc, ◌+◌, ◌*◌, ◌%◌, ◌^◌, ◌≤◌, ◌<◌, ◌≡◌, ◌≢◌, refl, sym, ap, ◌∙◌, Bool, true, false, ◌==◌,
  if◌then◌else◌, ltb, List, [], ◌∷◌, ◌++◌, length, get_or, set, Option, none, some, arith,
  Bool-cases, inl, inr,
}
use Prim.Native.Nat.{bit_or}
use lwip_server.Base.Bits.{bit_or-lt}
use lwip_server.Ethernet.TxDescriptor.{
  TxDescriptor, Span, no_span, owned_by_dma, set_owned, set_buffers, set_first_descriptor,
  set_last_descriptor, set_app_data, desc3_own, desc3_fd, desc3_ld, desc3_cic,
}
use lwip_server.Ethernet.TxDescriptor.Bits.{owned_by_dma-set_owned}
use lwip_server.Ethernet.TxRing.{
  TxRing, Packet, tx_desc_count, blank, collect, prepare, take_descriptor, fill, send,
  low_level_output,
}
use lwip_server.Ethernet.TxRing.Valid.{
  IsValid, under_way, take_descriptor-IsValid, available_size-take_descriptor,
}

-- The control words fit 32 bits.
abbrev pub Narrow : List TxDescriptor → Type 0
Narrow ds = (i : ℕ) → (get_or ds i blank).desc3 < 2 ^ 32

-- The place of the descriptor that is k descriptors younger than the oldest one under way.
abbrev pub place : TxRing → ℕ → ℕ
place r k = (r.unavailable_index + k) % tx_desc_count

-- Each descriptor under way that the DMA has not written back is the DMA's.
abbrev pub Guarded : (ℕ → Bool) → TxRing → Type 0
Guarded back r =
    (k : ℕ)
    → k < under_way r
    → back (place r k) ≡ false
    → owned_by_dma (get_or r.descriptors (place r k) blank) ≡ true

pub record IsSafe (back : ℕ → Bool) (r : TxRing) : Type 0 where
  pub valid : IsValid r
  pub narrow : Narrow r.descriptors
  pub watched : Guarded back r

-- A table after one entry is written: what the new entry and the others have, each entry has.
pub set_each :
    (P : TxDescriptor → Type 0) (ds : List TxDescriptor) (i j : ℕ) (d : TxDescriptor)
    → i < length ds
    → (i ≡ j → P d)
    → (i ≢ j → P (get_or ds j blank))
    → P (get_or (set ds i d) j blank)
set_each P [] i j d h new old = absurd (omega arith)
set_each P (x ∷ ds) zero zero d h new old = new refl
set_each P (x ∷ ds) zero (suc j) d h new old = old (omega arith)
set_each P (x ∷ ds) (suc i) zero d h new old = old (omega arith)
set_each P (x ∷ ds) (suc i) (suc j) d h new old =
    set_each P ds i j d (omega arith) (λ e. new (ap suc e)) (λ ne. old (λ e. ne (omega arith)))

set_first_descriptor_lt :
    (first : Bool) (d : TxDescriptor)
    → d.desc3 < 2 ^ 32
    → (if first then set_first_descriptor d else d).desc3 < 2 ^ 32
unfolding set_first_descriptor
set_first_descriptor_lt true d h = bit_or-lt 32 d.desc3 desc3_fd h (omega arith)
set_first_descriptor_lt false d h = h

set_last_descriptor_lt :
    (last : Bool) (a : ℕ) (d : TxDescriptor)
    → d.desc3 < 2 ^ 32
    → (if last then set_app_data (set_last_descriptor d) a 0 else set_app_data d 0 0).desc3 < 2 ^ 32
unfolding set_last_descriptor set_app_data
set_last_descriptor_lt true a d h = bit_or-lt 32 d.desc3 desc3_ld h (omega arith)
set_last_descriptor_lt false a d h = h

set_buffers_lt :
    (b c : Span) (n : ℕ) (d : TxDescriptor)
    → n < 2 ^ 32
    → d.desc3 < 2 ^ 32
    → (set_buffers d b c n).desc3 < 2 ^ 32
unfolding set_buffers
set_buffers_lt b c n d hn h =
    bit_or-lt 32 (bit_or d.desc3 desc3_cic) n (bit_or-lt 32 d.desc3 desc3_cic h (omega arith)) hn

set_owned_lt : (d : TxDescriptor) → d.desc3 < 2 ^ 32 → (set_owned d).desc3 < 2 ^ 32
unfolding set_owned
set_owned_lt d h = bit_or-lt 32 d.desc3 desc3_own h (omega arith)

-- A descriptor that is fit for the DMA: it is the DMA's, and its control word fits 32 bits.
abbrev pub IsHandedOver : TxDescriptor → Type 0
IsHandedOver d = (d.desc3 < 2 ^ 32) × (owned_by_dma d ≡ true)

pub prepare-IsHandedOver :
    (a n : ℕ) (first last : Bool) (b c : Span) (d : TxDescriptor)
    → n < 2 ^ 32
    → d.desc3 < 2 ^ 32
    → IsHandedOver (prepare a n first last b c d)
unfolding prepare
prepare-IsHandedOver a n first last b c d hn h =
    let ready =
      set_last_descriptor_lt last a _
        (set_buffers_lt b c n _ hn (set_first_descriptor_lt first d h)) in
    (set_owned_lt _ ready, owned_by_dma-set_owned _ ready)

module _ (back : ℕ → Bool) (r : TxRing) (f : TxDescriptor → TxDescriptor) (s : IsSafe back r)
    (room : 0 < r.available_size) where
  older : (k : ℕ) → k < under_way r + 1 → r.available_index ≢ place r k → k < under_way r
  older k h ne = elim (Bool-cases (k == under_way r)) [
    | inl e ↦ absurd (ne (sym s.valid.joined ∙ ap (place r) (sym (ground arith))))
    | inr e ↦ ground arith
  ]

  take_descriptor-IsSafe :
      IsHandedOver (f (get_or r.descriptors r.available_index blank))
      → IsSafe back (take_descriptor r f)
  unfolding take_descriptor
  take_descriptor-IsSafe over =
      let d = f (get_or r.descriptors r.available_index blank) in
      let inside : r.available_index < length r.descriptors = omega (arith, s.valid.table) in
      record {
        valid = unfold take_descriptor in take_descriptor-IsValid r f s.valid room;
        narrow = λ i.
            set_each (λ x. x.desc3 < 2 ^ 32) r.descriptors r.available_index i d inside
              (λ _. over.0) (λ _. s.narrow i);
        watched = λ k h e.
            set_each (λ x. owned_by_dma x ≡ true) r.descriptors r.available_index (place r k) d
              inside (λ _. over.1)
              (λ ne. s.watched k (older k (omega (arith, s.valid.size_in)) ne) e);
      }

module _ (back : ℕ → Bool) (a n : ℕ) (narrow : n < 2 ^ 32) where
  one-IsSafe :
      (first last : Bool) (b c : Span) (r : TxRing)
      → IsSafe back r
      → 0 < r.available_size
      → IsSafe back (take_descriptor r (prepare a n first last b c))
  one-IsSafe first last b c r s room =
      take_descriptor-IsSafe back r (prepare a n first last b c) s room
        (prepare-IsHandedOver a n first last b c _ narrow (s.narrow r.available_index))

  fill-IsSafe :
      (bufs : List Span) (first : Bool) (r : TxRing)
      → IsSafe back r
      → length bufs ≤ 2 * r.available_size
      → IsSafe back (fill a n first bufs r)
  unfolding fill
  fill-IsSafe [] first r s fits = s
  fill-IsSafe (b ∷ []) first r s fits = one-IsSafe first true b no_span r s (omega arith)
  fill-IsSafe (b ∷ c ∷ []) first r s fits = one-IsSafe first true b c r s (omega arith)
  fill-IsSafe (b ∷ c ∷ d ∷ bufs) first r s fits =
      let room : 0 < r.available_size = omega arith in
      let f = prepare a n first false b c in
      fill-IsSafe (d ∷ bufs) false (take_descriptor r f) (one-IsSafe first false b c r s room)
        (omega (arith, available_size-take_descriptor r f s.valid room))

abbrev pub Counted : Option (List Span × ℕ) → Type 0
Counted none = Unit {0}
Counted (some (bufs, n)) = n < 2 ^ 32

pub collect-Counted : (qs bufs : List Span) (n : ℕ) → n < 2 ^ 32 → Counted (collect qs bufs n)
unfolding collect
collect-Counted [] bufs n h = h
collect-Counted (q ∷ qs) bufs n h = elim (Bool-cases (length bufs == tx_desc_count)) [
  | inl full ↦ rw full tt
  | inr more ↦ rw more (collect-Counted qs (bufs ++ q ∷ []) ((n + q.size) % 2 ^ 32) (omega arith))
]

send-IsSafe :
    (back : ℕ → Bool) (p : Packet) (o : Option (List Span × ℕ)) (r : TxRing)
    → Counted o
    → IsSafe back r
    → IsSafe back (send p o r).2
unfolding send
send-IsSafe back p none r c s = s
send-IsSafe back p (some (bufs, n)) r c s =
    elim (Bool-cases (ltb (r.available_size * 2 % 2 ^ 32) (length bufs))) [
      | inl full ↦ rw full s
      | inr fits ↦
          rw fits (fill-IsSafe back p.address n c bufs true r s (ground (arith, s.valid.size_in)))
    ]

pub low_level_output-IsSafe :
    (back : ℕ → Bool) (p : Packet) (r : TxRing)
    → IsSafe back r
    → IsSafe back (low_level_output p r).2
unfolding low_level_output
low_level_output-IsSafe back p r s =
    send-IsSafe back p (collect p.bufs [] 0) r (collect-Counted p.bufs [] 0 (omega arith)) s
