-- ===== src/Ethernet/TxRing/Valid.antt =====
-- The invariant of the ring, and the packets that are under way.
use mathlib.Core.List.{append-nil, append_assoc}
use lwip_server.Base.{
  get_or, sym, ℕ, suc, ◌+◌, ◌-◌, ◌%◌, ◌≤◌, ◌<◌, ◌≡◌, refl, ap, ◌∙◌, List, [], ◌∷◌, ◌++◌, arith,
  length, length-set,
}
use lwip_server.Base.Window.{window, window-push}
use lwip_server.Ethernet.TxDescriptor.{TxDescriptor}
use lwip_server.Ethernet.TxRing.{
  TxRing, tx_desc_count, blank, take_descriptor, held, oldest, give_back,
}

pub record IsValid (r : TxRing) : Type 0 where
  pub table : length r.descriptors ≡ tx_desc_count
  pub available_in : r.available_index < tx_desc_count
  pub unavailable_in : r.unavailable_index < tx_desc_count
  pub size_in : r.available_size ≤ tx_desc_count
  pub joined :
      (r.unavailable_index + (tx_desc_count - r.available_size)) % tx_desc_count ≡ r.available_index

-- Descriptors taken and not yet given back.
abbrev pub under_way : TxRing → ℕ
under_way r = tx_desc_count - r.available_size

unfoldable pub payloads : List TxDescriptor → List ℕ
payloads [] = []
payloads (d ∷ ds) = held d ++ payloads ds

-- The packets handed to the DMA and not yet freed, oldest first.
unfoldable pub pending : TxRing → List ℕ
pending r = payloads (window blank r.descriptors tx_desc_count r.unavailable_index (under_way r))

pub payloads-append : (ds es : List TxDescriptor) → payloads (ds ++ es) ≡ payloads ds ++ payloads es
unfolding payloads
payloads-append [] es = refl
payloads-append (d ∷ ds) es = rw (payloads-append ds es, append_assoc)

module _ (r : TxRing) (f : TxDescriptor → TxDescriptor) (v : IsValid r)
    (room : 0 < r.available_size) where
  pub take_descriptor-IsValid : IsValid (take_descriptor r f)
  unfolding take_descriptor
  take_descriptor-IsValid = ground (
    arith,
    length-set r.descriptors r.available_index (f (get_or r.descriptors r.available_index blank)),
  )

  pub available_size-take_descriptor : (take_descriptor r f).available_size ≡ r.available_size - 1
  unfolding take_descriptor
  available_size-take_descriptor = omega (arith, v.size_in)

  -- The descriptor taken comes last among those under way.
  pub pending-take_descriptor :
      pending (take_descriptor r f)
      ≡ pending r ++ held (f (get_or r.descriptors r.available_index blank))
  unfolding pending take_descriptor payloads
  pending-take_descriptor =
      let grown : under_way (take_descriptor r f) ≡ under_way r + 1 = omega (arith, v.size_in) in
      rw (grown) (
        ap payloads (
          window-push blank (f (get_or r.descriptors r.available_index blank)) r.descriptors
            tx_desc_count (under_way r) r.unavailable_index r.available_index v.table
            v.unavailable_in (omega arith) (sym v.joined))
        ∙ payloads-append _ (_ ∷ [])
        ∙ ap (λ t. pending r ++ t) (append-nil _))

module _ (r : TxRing) (v : IsValid r) (some_taken : r.available_size < tx_desc_count) where
  pub give_back-IsValid : IsValid (give_back r)
  unfolding give_back
  give_back-IsValid = ground arith

  pub pending-give_back : held (oldest r) ++ pending (give_back r) ≡ pending r
  unfolding pending give_back oldest payloads
  pending-give_back =
      let e : under_way r ≡ suc (under_way (give_back r)) = omega arith in
      rw e (
        ap
          (λ i.
            held (oldest r)
            ++ payloads (window blank r.descriptors tx_desc_count i (under_way (give_back r))))
          (ground arith))
