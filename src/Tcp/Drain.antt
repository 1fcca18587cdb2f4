-- ===== src/Tcp/Drain.antt =====
-- The loop of `TcpServer::writeToTcp` (src/network/TcpServer.cpp): what it does to the stream of
-- bytes and to the references, and that it ends.
use lwip_server.Base.{
  ℕ, zero, suc, ◌≡◌, refl, ap, ap₂, ◌∙◌, Bool, true, false, Option, none, some, ◌++◌, length, arith,
  ltb, inl, inr, Bool-cases, sym,
}
use mathlib.Core.List.{append_assoc}
use lwip_server.Lwip.{is_ok}
use lwip_server.Tcp.Api.{TcpApi, StreamLaws, ref_next}
use lwip_server.Tcp.Connection.{TcpConnection, move_on, write_head, drain, write_to_tcp}
use lwip_server.Tcp.Stream.{
  Alike, Alike-refl, Alike-trans, own, Holds, Kept, kept, Kept-trans, moved-held, moved-Holds,
  freed-content, freed-clen, ref_next-queued, ref_next-content, ref_next-clen,
}

-- Without any law: the loop leaves all fields but the write buffer.
module _ (api : TcpApi) where
  open api use {World}

  write_head-Alike :
      (b : Option ℕ) (c : TcpConnection) (w : World) → Alike c (write_head api b c w).1.0
  unfolding write_head move_on
  write_head-Alike none c w = Alike-refl c
  write_head-Alike (some p) c w = ground arith

  drain-Alike : (n : ℕ) (c : TcpConnection) (w : World) → Alike c (drain api n c w).0
  unfolding drain
  drain-Alike zero c w = Alike-refl c
  drain-Alike (suc n) c w =
      let r = write_head api c.write_buffer c w in
      let a = write_head-Alike c.write_buffer c w in
      let l = drain-Alike n r.1.0 r.1.1 in
      elim (Bool-cases r.0) [
        | inl more ↦ rw more (Alike-trans c r.1.0 (drain api n r.1.0 r.1.1).0 a l)
        | inr stop ↦ rw stop a
      ]

  pub write_to_tcp-Alike : (c : TcpConnection) (w : World) → Alike c (write_to_tcp api c w).0
  unfolding write_to_tcp
  write_to_tcp-Alike c w = drain-Alike (suc (api.pbuf_clen w c.write_buffer)) c w

module _ (api : TcpApi) (laws : StreamLaws api) where
  open api use {World}

  -- The state after lwIP took the bytes of p, and the buffer after p in it.
  abbrev given : ℕ → TcpConnection → World → World
  given p c w = (api.tcp_write w c.control_block (api.payload w p)).1

  module _ (p : ℕ) (c : TcpConnection) (w : World) (e : c.write_buffer ≡ some p)
      (h : Holds api laws c.write_buffer w) where
    abbrev v : World
    v = given p c w

    abbrev q : Option ℕ
    q = api.next v p

    abbrev u : World
    u = ref_next api q v

    abbrev z : World
    z = (api.pbuf_free u (some p)).1

    given-Holds : Holds api laws (some p) v
    given-Holds r =
        omega
          (arith, h r, laws.write_held w c.control_block (api.payload w p) r, ap (λ b. own b r) e)

    moved : Holds api laws q z
    moved = moved-Holds api laws p q v given-Holds

    moved-content : laws.content z q ≡ laws.content w (api.next w p)
    moved-content =
        freed-content api laws p q u moved
        ∙ ref_next-content api laws q q v
        ∙ laws.write_content w c.control_block q (api.payload w p)
        ∙ ap (laws.content w) (laws.write_next w c.control_block p (api.payload w p))

    moved-clen : api.pbuf_clen z q ≡ api.pbuf_clen w (api.next w p)
    moved-clen =
        freed-clen api laws p q u moved
        ∙ ref_next-clen api laws q q v
        ∙ laws.write_clen w c.control_block q (api.payload w p)
        ∙ ap (api.pbuf_clen w) (laws.write_next w c.control_block p (api.payload w p))

    -- The buffer p has been written, and the next one has taken its place.
    move_on-Kept :
        is_ok (api.tcp_write w c.control_block (api.payload w p)).0 ≡ true
        → Kept api laws c w (record c { write_buffer = q }) z
    move_on-Kept ok = record {
      alike = (refl, refl, refl, refl, refl, refl);
      stream_kept =
          ap₂ (◌++◌)
            (laws.free_queued u c.control_block p
              ∙ ref_next-queued api laws q c.control_block v
              ∙ laws.write_ok w c.control_block (api.payload w p) ok)
            moved-content
          ∙ append_assoc (laws.queued w c.control_block) (api.payload w p) _
          ∙ ap (λ l. laws.queued w c.control_block ++ l)
              (sym (laws.content_next w p) ∙ ap (laws.content w) (sym e));
      holds = moved;
      balanced = λ r. omega (
        arith,
        moved-held api laws p q v given-Holds r,
        laws.write_held w c.control_block (api.payload w p) r,
        ap (λ b. own b r) e,
      );
    }

    move_on-clen : api.pbuf_clen w c.write_buffer ≡ suc (api.pbuf_clen z q)
    move_on-clen = ap (api.pbuf_clen w) e ∙ laws.clen_next w p ∙ ap suc (sym moved-clen)

  pub record Turn (c : TcpConnection) (w : World) (r : Bool × (TcpConnection × World))
      : Type 0 where
    pub keeps : Kept api laws c w r.1.0 r.1.1
    pub shorter :
        r.0 ≡ true → api.pbuf_clen w c.write_buffer ≡ suc (api.pbuf_clen r.1.1 r.1.0.write_buffer)

  -- A turn that stops may have asked lwIP in vain.
  refused-Kept :
      (p : ℕ) (c : TcpConnection) (w : World)
      → Holds api laws c.write_buffer w
      → is_ok (api.tcp_write w c.control_block (api.payload w p)).0 ≡ false
      → Kept api laws c w c (given p c w)
  refused-Kept p c w h e = record {
    alike = (refl, refl, refl, refl, refl, refl);
    stream_kept = ap₂ (◌++◌) (laws.write_failed w _ _ e) (laws.write_content w _ _ _);
    holds = λ r. omega (arith, h r, laws.write_held w c.control_block (api.payload w p) r);
    balanced = λ r. omega (arith, laws.write_held w c.control_block (api.payload w p) r);
  }

  write_some :
      (p : ℕ) (c : TcpConnection) (w : World)
      → c.write_buffer ≡ some p
      → Holds api laws c.write_buffer w
      → (full ok : Bool) → ltb (api.tcp_sndbuf w c.control_block) (length (api.payload w p)) ≡ full
      → is_ok (api.tcp_write w c.control_block (api.payload w p)).0 ≡ ok
      → Turn c w (write_head api (some p) c w)
  unfolding write_head move_on
  write_some p c w e h true ok e1 e2 =
      rw e1 (record { keeps = kept api laws c w h; shorter = λ f. ground arith })
  write_some p c w e h false false e1 e2 =
      rw (e1, e2) (record { keeps = refused-Kept p c w h e2; shorter = λ f. ground arith })
  write_some p c w e h false true e1 e2 =
      rw (e1, e2)
        (record { keeps = move_on-Kept p c w e h e2; shorter = λ _. move_on-clen p c w e h })

  pub write_head-Turn :
      (b : Option ℕ) (c : TcpConnection) (w : World)
      → c.write_buffer ≡ b
      → Holds api laws c.write_buffer w
      → Turn c w (write_head api b c w)
  unfolding write_head
  write_head-Turn none c w e h = record { keeps = kept api laws c w h; shorter = λ f. ground arith }
  write_head-Turn (some p) c w e h = write_some p c w e h _ _ refl refl

  pub drain-Kept :
      (n : ℕ) (c : TcpConnection) (w : World)
      → Holds api laws c.write_buffer w
      → let r = drain api n c w in Kept api laws c w r.0 r.1
  unfolding drain
  drain-Kept zero c w h = kept api laws c w h
  drain-Kept (suc n) c w h =
      let t = write_head-Turn c.write_buffer c w refl h in
      let r = write_head api c.write_buffer c w in
      let k = drain-Kept n r.1.0 r.1.1 t.keeps.holds in
      elim (Bool-cases r.0) [
        | inl more ↦ rw more (Kept-trans api laws c w r.1.0 r.1.1 _ _ t.keeps k)
        | inr stop ↦ rw stop t.keeps
      ]
