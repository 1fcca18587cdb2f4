-- ===== src/Tcp/Echo.antt =====
-- The echo server: what comes back, and who holds the buffer (include/lwipserver/network/TcpEchoServer.h
-- and `TcpServer::recv` of src/network/TcpServer.cpp).
use lwip_server.Base.{
  ℕ, ◌*◌, ◌+◌, ◌-◌, ◌≤◌, ◌<◌, ◌≡◌, refl, sym, subst, ap, ap₂, ◌∙◌, true, Option, none, some, ◌++◌,
  arith,
}
use lwip_server.Lwip.{Err, err_ok, is_ok}
use lwip_server.Tcp.Api.{TcpApi, StreamLaws}
use lwip_server.Tcp.Connection.{TcpConnection, established, write, append_read, recv, echo}
use lwip_server.Tcp.Stream.{own, stream, Holds, own_self}
use lwip_server.Tcp.Write.{Adds, write-Adds}

module _ (api : TcpApi) (laws : StreamLaws api) where
  open api use {World}

  -- The references that a connection and the buffer handed to it have, one each.
  abbrev pub HoldsBoth : TcpConnection → ℕ → World → Type 0
  HoldsBoth c p w = (q : ℕ) → own c.write_buffer q + own (some p) q ≤ laws.held w q

  -- What the echo leaves: the bytes of p at the end of the stream, nothing in the read buffer, and of
  -- all references only that which lwIP handed over given back, and the write buffer's moved.
  pub record Echoed (c : TcpConnection) (p : ℕ) (w : World) (d : TcpConnection) (v : World)
      : Type 0 where
    pub state : d.state ≡ c.state
    pub control_block : d.control_block ≡ c.control_block
    pub read_buffer : d.read_buffer ≡ none
    pub stream_added : stream api laws d v ≡ stream api laws c w ++ laws.content w (some p)
    pub holds : Holds api laws d.write_buffer v
    pub balanced :
        (q : ℕ)
        → laws.held v q + own c.write_buffer q + own (some p) q
          ≡ laws.held w q + own d.write_buffer q

  -- The two references to p that are given back once it is written.
  module _ (p : ℕ) (w : World) where
    abbrev freed : World
    freed = (api.pbuf_free (api.pbuf_free w (some p)).1 (some p)).1

    freed-held : (q : ℕ) → laws.held freed q ≡ laws.held w q - 2 * own (some p) q
    freed-held q =
        ground (arith, laws.free_held w p q, laws.free_held (api.pbuf_free w (some p)).1 p q)

    freed-content :
        (b : Option ℕ)
        → ((q : ℕ) → own b q + 2 * own (some p) q ≤ laws.held w q)
        → laws.content freed b ≡ laws.content w b
    freed-content none h = laws.content_null _ ∙ sym (laws.content_null _)
    freed-content (some x) h =
        let one : own (some x) x ≡ 1 = own_self api laws x in
        let w1 = (api.pbuf_free w (some p)).1 in
        let left : 0 < laws.held freed x = omega (arith, h x, freed-held x, one) in
        let left1 : 0 < laws.held w1 x = ground (arith, laws.free_held w1 p x) in
        laws.free_content w1 p x left ∙ laws.free_content w p x left1

  append_read-empty :
      (b : Option ℕ) (p : ℕ) (c : TcpConnection) (w : World)
      → b ≡ none
      → append_read api b p c w ≡ (record c { read_buffer = some p }, api.pbuf_ref w p)
  unfolding append_read
  append_read-empty b p c w e = rw e refl

  -- The connection with p to read, and what `write` makes of it.
  module _ (c : TcpConnection) (p : ℕ) (w : World) where
    abbrev acked : World
    acked = api.tcp_recved w c.control_block (api.tot_len w p)

    abbrev holding : TcpConnection
    holding = record c { read_buffer = some p }

    abbrev written : TcpConnection × World
    written = write api holding (some p) (api.pbuf_ref acked p)

    abbrev after_echo : World → TcpConnection × World
    after_echo v = (record written.0 { read_buffer = none }, v)

    echo-written :
        written.0.read_buffer ≡ some p
        → echo api holding (api.pbuf_ref acked p) ≡ after_echo (api.pbuf_free written.1 (some p)).1
    unfolding echo
    echo-written e = ap (λ b. after_echo (api.pbuf_free written.1 b).1) e

    abbrev conclude : TcpConnection × World → Err × (TcpConnection × World)
    conclude t = (err_ok, (t.0, (api.pbuf_free t.1 (some p)).1))

    recv-written :
        (err : Err)
        → is_ok err ≡ true
        → c.read_buffer ≡ none
        → written.0.read_buffer ≡ some p
        → recv api (some (echo api)) c (some p) err w ≡ (err_ok, after_echo (freed p written.1))
    unfolding recv
    recv-written err ok empty e = rw ok (
        ap (λ t. conclude (echo api t.0 t.1)) (append_read-empty c.read_buffer p c acked empty)
        ∙ ap conclude (echo-written e))

    ready-held : (q : ℕ) → laws.held (api.pbuf_ref acked p) q ≡ laws.held w q + own (some p) q
    ready-held q =
        ground
          (arith, laws.ref_held acked p q, laws.recved_held w c.control_block (api.tot_len w p) q)

    ready-content : (b : Option ℕ) → laws.content (api.pbuf_ref acked p) b ≡ laws.content w b
    ready-content b = laws.ref_content acked p b ∙ laws.recved_content w _ b _

    ready-queued :
        laws.queued (api.pbuf_ref acked p) c.control_block ≡ laws.queued w c.control_block
    ready-queued = laws.ref_queued acked _ p ∙ laws.recved_queued w _ _

    module _ (open_ : c.state ≡ established) (h : HoldsBoth c p w) where
      added :
          Adds api laws
            (laws.content (api.pbuf_ref acked p) (some p))
            holding
            (api.pbuf_ref acked p)
            written.0
            written.1
      added =
          write-Adds api laws holding p (api.pbuf_ref acked p) open_
            (λ q. omega (arith, h q, ready-held q))

      kept-held :
          (q : ℕ) → own written.0.write_buffer q + 2 * own (some p) q ≤ laws.held written.1 q
      kept-held q = omega (arith, added.balanced q, ready-held q, h q)

      echoed : Echoed c p w (record written.0 { read_buffer = none }) (freed p written.1)
      echoed = record {
        state = added.alike.0;
        control_block = added.alike.1;
        read_buffer = refl;
        stream_added =
            ap₂ (◌++◌) (laws.free_queued _ _ p ∙ laws.free_queued _ _ p)
              (freed-content p written.1 written.0.write_buffer kept-held)
            ∙ added.stream_added
            ∙ ap₂ (◌++◌) (ap₂ (◌++◌) ready-queued (ready-content c.write_buffer))
                (ready-content (some p));
        holds = λ q. omega (arith, kept-held q, freed-held p written.1 q);
        balanced = λ q.
            omega (arith, added.balanced q, ready-held q, kept-held q, freed-held p written.1 q);
      }

  -- The data that the remote end sends on an established connection comes back: an echo server's
  -- `recv` puts the bytes of the buffer, all and in order, at the end of what is sent, behind what
  -- was waiting. It gives back lwIP's reference to the buffer and takes none but the write buffer's,
  -- so no buffer leaks and none is freed while it is needed. lwIP reports no error, the read buffer
  -- is empty, and the connection and lwIP hold one reference each to their buffers.
  pub recv-Echoed :
      (c : TcpConnection) (p : ℕ) (err : Err) (w : World)
      → is_ok err ≡ true
      → c.state ≡ established
      → c.read_buffer ≡ none
      → HoldsBoth c p w
      → let r = recv api (some (echo api)) c (some p) err w in Echoed c p w r.1.0 r.1.1
  recv-Echoed c p err w ok open_ empty h =
      subst (λ r. Echoed c p w r.1.0 r.1.1)
        (sym (recv-written c p w err ok empty (added c p w open_ h).alike.2)) (echoed c p w open_ h)
