-- ===== src/Ethernet/Reception/Lengths.antt =====
-- The chain of a received packet's buffers: `HAL_ETH_RxLinkCallback` of src/stm32h7/Ethernetif.cpp.
use lwip_server.Base.{
  ℕ, zero, suc, ◌+◌, ◌%◌, ◌^◌, ◌<◌, ◌≡◌, ◌≢◌, refl, sym, subst, ap, ◌∙◌, Option, none, some, List,
  [], ◌∷◌, ◌++◌, length, arith, if◌then◌else◌,
}
use lwip_server.Ethernet.Reception.{
  Pbuf, Chain, put, link_last, first_of, is_empty, add_length, rx_link_callback,
}

-- The buffers of a packet: address and length of each.
abbrev pub Parts : Type 0
Parts = List (ℕ × ℕ)

abbrev pub total : Parts → ℕ
total [] = 0
total ((a, l) ∷ ps) = l + total ps

abbrev pub Absent : ℕ → Parts → Type 0
Absent b [] = Unit {0}
Absent b ((a, l) ∷ ps) = (a ≢ b) × Absent b ps

abbrev pub Distinct : Parts → Type 0
Distinct [] = Unit {0}
Distinct ((a, l) ∷ ps) = Absent a ps × Distinct ps

-- From o the links run through the parts to e, and each buffer's total length is its own and that
-- of those after it, modulo 2 ^ 16.
abbrev pub Run : (ℕ → Pbuf) → Parts → Option ℕ → Option ℕ → Type 0
Run h [] o e = o ≡ e
Run h ((a, l) ∷ ps) o e =
    (o ≡ some a)
    × ((h a).len ≡ l)
    × ((h a).tot_len ≡ (l + total ps) % 2 ^ 16)
    × Run h ps (h a).next e

abbrev pub EndsAt : Parts → Option ℕ → Type 0
EndsAt [] e = Unit {0}
EndsAt ((a, l) ∷ []) e = e ≡ some a
EndsAt ((a, l) ∷ b ∷ ps) e = EndsAt (b ∷ ps) e

pub record IsPacket (c : Chain) (ps : Parts) : Type 0 where
  pub runs : Run c.pbufs ps c.start none
  pub ends : EndsAt ps c.end
  pub distinct : Distinct ps

put-Run :
    (h : ℕ → Pbuf) (b : ℕ) (p : Pbuf) (ps : Parts) (o e : Option ℕ)
    → Absent b ps
    → Run h ps o e
    → Run (put h b p) ps o e
put-Run h b p [] o e n r = r
put-Run h b p ((a, l) ∷ ps) o e (ne, n) (x, y, z, r) =
    let same : put h b p a ≡ h a = ground arith in
    rw same (x, y, z, put-Run h b p ps (h a).next e n r)

link_last-other :
    (h : ℕ → Pbuf) (a b : ℕ) (p : ℕ × ℕ) (ps : Parts) (e : Option ℕ)
    → Absent a (p ∷ ps)
    → EndsAt (p ∷ ps) e
    → link_last e b h a ≡ h a
link_last-other h a b (c, l) [] e (ne, _) n = rw n (ground arith)
link_last-other h a b p (q ∷ ps) e (_, n) m = link_last-other h a b q ps e n m

-- The new buffer b after the last.
link-Run :
    (h : ℕ → Pbuf) (b : ℕ) (p : ℕ × ℕ) (ps : Parts) (o e : Option ℕ)
    → Distinct (p ∷ ps)
    → EndsAt (p ∷ ps) e
    → Run h (p ∷ ps) o none
    → Run (link_last e b h) (p ∷ ps) o (some b)
link-Run h b (a, l) [] o e d n (x, y, z, r) =
    let it : link_last (some a) b h a ≡ record (h a) { next = some b } = ground arith in
    rw n (rw it (x, y, z, refl))
link-Run h b (a, l) (q ∷ ps) o e (m, d) n (x, y, z, r) =
    rw (link_last-other h a b q ps e m n) (x, y, z, link-Run h b q ps (h a).next e d n r)

add_length-none : (n : ℕ) (o : Option ℕ) (l : ℕ) (h : ℕ → Pbuf) → o ≡ none → add_length n o l h ≡ h
unfolding add_length
add_length-none zero o l h e = refl
add_length-none (suc n) o l h e = rw e refl

abbrev more : ℕ → Pbuf → Pbuf
more l p = record p { tot_len = (p.tot_len + l) % 2 ^ 16 }

add_length-some :
    (n : ℕ) (o : Option ℕ) (l : ℕ) (h : ℕ → Pbuf) (a : ℕ)
    → o ≡ some a
    → add_length (suc n) o l h ≡ add_length n (h a).next l (put h a (more l (h a)))
unfolding add_length
add_length-some n o l h a e = rw e refl

total-snoc : (ps : Parts) (b l : ℕ) → total (ps ++ (b, l) ∷ []) ≡ total ps + l
total-snoc [] b l = omega arith
total-snoc ((a, k) ∷ ps) b l = omega (arith, total-snoc ps b l)

-- A buffer that is not on the chain keeps its fields.
add_length-other :
    (n : ℕ) (ps : Parts) (o : Option ℕ) (l : ℕ) (h : ℕ → Pbuf) (b c : ℕ)
    → Distinct ps
    → Absent c ps
    → Absent b ps
    → b ≢ c
    → Run h ps o (some b)
    → (h b).next ≡ none
    → add_length n o l h c ≡ h c
unfolding add_length
add_length-other zero ps o l h b c d m n2 ne r e = refl
add_length-other (suc n) [] o l h b c d m n2 ne r e =
    rw (add_length-some n o l h b r, add_length-none n (h b).next l (put h b (more l (h b))) e)
      (ground arith)
add_length-other (suc n) ((a, k) ∷ ps) o l h b c (n0, d) (n1, m) (n3, n2) ne (x, y, z, r) e =
    let q = more l (h a) in
    let later =
      add_length-other n ps (h a).next l (put h a q) b c d m n2 ne
        (put-Run h a q ps (h a).next (some b) n0 r) (ground arith) in
    rw (add_length-some n o l h a x, later) (ground arith)

add_length-Run :
    (n : ℕ) (ps : Parts) (o : Option ℕ) (l : ℕ) (h : ℕ → Pbuf) (b : ℕ)
    → Distinct ps
    → Absent b ps
    → length ps < n
    → Run h ps o (some b)
    → h b ≡ record { next = none; len = l; tot_len = 0 }
    → Run (add_length n o l h) (ps ++ (b, l) ∷ []) o none
add_length-Run zero ps o l h b d m lt r e = ground arith
add_length-Run (suc n) [] o l h b d m lt r e =
    let e1 : (h b).next ≡ none = ap (λ p. p.next) e in
    let len : (h b).len ≡ l = ap (λ p. p.len) e in
    let tot : (h b).tot_len ≡ 0 = ap (λ p. p.tot_len) e in
    rw (add_length-some n o l h b r, add_length-none n (h b).next l (put h b (more l (h b))) e1)
      (r, ground arith, ground arith, ground arith)
add_length-Run (suc n) ((a, k) ∷ ps) o l h b (n0, d) (n2, m) lt (x, y, z, r) e =
    let q = more l (h a) in
    let run = put-Run h a q ps (h a).next (some b) n0 r in
    let new : put h a q b ≡ record { next = none; len = l; tot_len = 0 } = ground arith in
    let end : (put h a q b).next ≡ none = ap (λ p. p.next) new in
    let ne : b ≢ a = λ i. n2 (sym i) in
    let same = add_length-other n ps (h a).next l (put h a q) b a d n0 m ne run end in
    let it : put h a q a ≡ q = ground arith in
    let more_total = total-snoc ps b l in
    let next = add_length-Run n ps (h a).next l (put h a q) b d m (omega arith) run new in
    let step = add_length-some n o l h a x in
    subst (λ g. Run g ((a, k) ∷ ps ++ (b, l) ∷ []) o none) (sym step)
      (rw (same, it) (x, y, ground arith, next))

whole : (ps : Parts) (a l : ℕ) → EndsAt (ps ++ (a, l) ∷ []) (some a)
whole [] a l = refl
whole (p ∷ []) a l = refl
whole (p ∷ q ∷ ps) a l = whole (q ∷ ps) a l

Absent-snoc : (b : ℕ) (ps : Parts) (a l : ℕ) → a ≢ b → Absent b ps → Absent b (ps ++ (a, l) ∷ [])
Absent-snoc b [] a l ne n = (ne, tt)
Absent-snoc b (p ∷ ps) a l ne (m, n) = (m, Absent-snoc b ps a l ne n)

Distinct-snoc : (ps : Parts) (a l : ℕ) → Absent a ps → Distinct ps → Distinct (ps ++ (a, l) ∷ [])
Distinct-snoc [] a l n d = (tt, tt)
Distinct-snoc (p ∷ ps) a l (ne, n) (m, d) =
    (Absent-snoc p.0 ps a l (λ e. ne (sym e)) m, Distinct-snoc ps a l n d)

abbrev new_pbuf : ℕ → Pbuf
new_pbuf l = record { next = none; len = l; tot_len = 0 }

-- What the callback stores, given the start s and the end e.
abbrev joined : ℕ → ℕ → ℕ → (ℕ → Pbuf) → Option ℕ → Option ℕ → ℕ → Pbuf
joined fuel a l h e s =
    let h1 = put h a (new_pbuf l) in
    add_length fuel (first_of s a) l (if is_empty s then h1 else link_last e a h1)

joined-Run :
    (fuel a l : ℕ) (ps : Parts) (h : ℕ → Pbuf) (e s : Option ℕ)
    → Run h ps s none
    → EndsAt ps e
    → Distinct ps
    → Absent a ps
    → length ps < fuel
    → Run (joined fuel a l h e s) (ps ++ (a, l) ∷ []) (first_of s a) none
joined-Run fuel a l [] h e s r n d m lt =
    let at : put h a (new_pbuf l) a ≡ new_pbuf l = ground arith in
    subst (λ o. Run (joined fuel a l h e o) ((a, l) ∷ []) (first_of o a) none) (sym r)
      (add_length-Run fuel [] (some a) l (put h a (new_pbuf l)) a tt tt lt refl at)
joined-Run fuel a l (p ∷ ps) h e s (x, y, z, r) n d m lt =
    let h1 = put h a (new_pbuf l) in
    let at : h1 a ≡ new_pbuf l = ground arith in
    let run =
      link-Run h1 a p ps (some p.0) e d n
        (put-Run h a (new_pbuf l) (p ∷ ps) (some p.0) none m (refl, y, z, r)) in
    subst (λ o. Run (joined fuel a l h e o) (p ∷ ps ++ (a, l) ∷ []) (first_of o a) none) (sym x)
      (add_length-Run fuel (p ∷ ps) (some p.0) l (link_last e a h1) a d m lt run
        (link_last-other h1 a a p ps e m n ∙ at))

-- Each buffer that the HAL hands over becomes the last of the packet: from the first buffer the
-- links run through the buffers in the order in which they came, each with its own length and, as
-- its total length, the lengths of itself and of those behind it modulo 2 ^ 16. The buffer must not
-- be in the packet yet, and the packet must have fewer buffers than the fuel.
pub rx_link_callback-IsPacket :
    (fuel a l : ℕ) (ps : Parts) (c : Chain)
    → IsPacket c ps
    → Absent a ps
    → length ps < fuel
    → IsPacket (rx_link_callback fuel a l c) (ps ++ (a, l) ∷ [])
unfolding rx_link_callback
rx_link_callback-IsPacket fuel a l ps c v n lt = record {
  runs = joined-Run fuel a l ps c.pbufs c.end c.start v.runs v.ends v.distinct n lt;
  ends = whole ps a l;
  distinct = Distinct-snoc ps a l n v.distinct;
}
