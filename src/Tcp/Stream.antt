-- ===== src/Tcp/Stream.antt =====
-- The bytes of a connection and the references to its buffers (src/network/TcpServer.cpp): what it
-- means to keep them, and what the change from a buffer to the next does to them.
use lwip_server.Base.{
  ℕ, ◌+◌, ◌≤◌, ◌≡◌, refl, sym, ◌∙◌, Option, none, some, List, ◌++◌, arith, ◌==◌, if◌then◌else◌,
}
use lwip_server.Tcp.Api.{TcpApi, StreamLaws, ref_next}
use lwip_server.Tcp.Connection.{TcpConnection}

-- The same connection with another write buffer.
abbrev pub Alike : TcpConnection → TcpConnection → Type 0
Alike c d =
    (d.state ≡ c.state)
    × (d.control_block ≡ c.control_block)
    × (d.read_buffer ≡ c.read_buffer)
    × (d.has_server ≡ c.has_server)
    × (d.write_offset ≡ c.write_offset)
    × (d.read_offset ≡ c.read_offset)

pub Alike-refl : (c : TcpConnection) → Alike c c
Alike-refl c = (refl, refl, refl, refl, refl, refl)

pub Alike-trans : (c d e : TcpConnection) → Alike c d → Alike d e → Alike c e
Alike-trans c d e a b = (b.0 ∙ a.0, b.1 ∙ a.1, b.2 ∙ a.2, b.3 ∙ a.3, b.4 ∙ a.4, b.5 ∙ a.5)

-- The references of a connection's write buffer: one to its head.
abbrev pub own : Option ℕ → ℕ → ℕ
own none q = 0
own (some p) q = if p == q then 1 else 0

module _ (api : TcpApi) (laws : StreamLaws api) where
  open api use {World}

  -- All bytes of a connection: those it gave to lwIP, and those that wait in its write buffer.
  abbrev pub stream : TcpConnection → World → List ℕ
  stream c w = laws.queued w c.control_block ++ laws.content w c.write_buffer

  -- The write buffer has the reference that the connection took.
  abbrev pub Holds : Option ℕ → World → Type 0
  Holds b w = (q : ℕ) → own b q ≤ laws.held w q

  -- The bytes and the references stay what they were, up to what `extra` says.
  pub record Kept (c : TcpConnection) (w : World) (d : TcpConnection) (v : World) : Type 0 where
    pub alike : Alike c d
    pub stream_kept : stream d v ≡ stream c w
    pub holds : Holds d.write_buffer v
    pub balanced :
        (q : ℕ) → laws.held v q + own c.write_buffer q ≡ laws.held w q + own d.write_buffer q

  pub kept : (c : TcpConnection) (w : World) → Holds c.write_buffer w → Kept c w c w
  kept c w h = record { alike = Alike-refl c; stream_kept = refl; holds = h; balanced = λ q. refl }

  pub Kept-trans :
      (c : TcpConnection) (w : World) (d : TcpConnection) (v : World) (e : TcpConnection)
      (u : World)
      → Kept c w d v
      → Kept d v e u
      → Kept c w e u
  Kept-trans c w d v e u k l = record {
    alike = Alike-trans c d e k.alike l.alike;
    stream_kept = l.stream_kept ∙ k.stream_kept;
    holds = l.holds;
    balanced = λ q. omega (arith, k.balanced q, l.balanced q);
  }

  -- The head is given back when the next one has been referenced.
  pub ref_next-held :
      (b : Option ℕ) (w : World) (q : ℕ) → laws.held (ref_next api b w) q ≡ laws.held w q + own b q
  ref_next-held none w q = omega arith
  ref_next-held (some p) w q = ground (arith, laws.ref_held w p q)

  pub moved-held :
      (p : ℕ) (b : Option ℕ) (w : World)
      → Holds (some p) w
      → (q : ℕ)
      → laws.held (api.pbuf_free (ref_next api b w) (some p)).1 q + own (some p) q
        ≡ laws.held w q + own b q
  moved-held p b w h q =
      ground (arith, h q, ref_next-held b w q, laws.free_held (ref_next api b w) p q)

  pub moved-Holds :
      (p : ℕ) (b : Option ℕ) (w : World)
      → Holds (some p) w
      → Holds b (api.pbuf_free (ref_next api b w) (some p)).1
  moved-Holds p b w h q = omega (arith, moved-held p b w h q, h q)

  pub own_self : (p : ℕ) → own (some p) p ≡ 1
  own_self p = ground arith

  pub freed-content :
      (p : ℕ) (b : Option ℕ) (w : World)
      → Holds b (api.pbuf_free w (some p)).1
      → laws.content (api.pbuf_free w (some p)).1 b ≡ laws.content w b
  freed-content p none w h = laws.content_null _ ∙ sym (laws.content_null _)
  freed-content p (some q) w h = laws.free_content w p q (omega (arith, h q, own_self q))

  pub freed-clen :
      (p : ℕ) (b : Option ℕ) (w : World)
      → Holds b (api.pbuf_free w (some p)).1
      → api.pbuf_clen (api.pbuf_free w (some p)).1 b ≡ api.pbuf_clen w b
  freed-clen p none w h = laws.clen_null _ ∙ sym (laws.clen_null _)
  freed-clen p (some q) w h = laws.free_clen w p q (omega (arith, h q, own_self q))

  pub ref_next-queued :
      (b c : Option ℕ) (w : World) → laws.queued (ref_next api b w) c ≡ laws.queued w c
  ref_next-queued none c w = refl
  ref_next-queued (some p) c w = laws.ref_queued w c p

  pub ref_next-content :
      (b c : Option ℕ) (w : World) → laws.content (ref_next api b w) c ≡ laws.content w c
  ref_next-content none c w = refl
  ref_next-content (some p) c w = laws.ref_content w p c

  pub ref_next-clen :
      (b c : Option ℕ) (w : World) → api.pbuf_clen (ref_next api b w) c ≡ api.pbuf_clen w c
  ref_next-clen none c w = refl
  ref_next-clen (some p) c w = laws.ref_clen w p c
