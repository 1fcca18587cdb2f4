-- ===== src/Tcp/Session.antt =====
-- A connection of the echo server from the accept to the close (src/network/TcpServer.cpp and
-- include/lwipserver/network/TcpEchoServer.h), over every order of the callbacks.
use lwip_server.Base.{
  ℕ, ◌≡◌, ◌≢◌, refl, sym, subst, ap, ap₂, ◌∙◌, true, false, inl, inr, Bool-cases, Option, none,
  some, List, [], ◌++◌, arith,
}
use mathlib.Core.List.{append_assoc, append-nil}
use lwip_server.Lwip.{Err, err_ok, err_mem, is_ok}
use lwip_server.Tcp.Api.{TcpApi, StreamLaws}
use lwip_server.Tcp.Connection.{
  ConnectionState, TcpConnection, write_to_tcp, closed, closing, established, is_closing, close,
  close_result, serve, sent, poll, recv_end, recv, echo,
}
use lwip_server.Tcp.Stream.{own, stream, Holds, Kept, freed-content}
use lwip_server.Tcp.Write.{write_to_tcp-Kept}
use lwip_server.Tcp.Echo.{HoldsBoth, recv-Echoed}

-- To close or to abort a connection does not change what it was given before.
pub record CloseLaws (api : TcpApi) (laws : StreamLaws api) : Type 0 where
  pub close_queued :
      (w : api.World) (c : Option ℕ) → laws.queued (api.tcp_close w c).1 c ≡ laws.queued w c
  pub abort_queued :
      (w : api.World) (c : Option ℕ) → laws.queued (api.tcp_abort w c) c ≡ laws.queued w c

module _ (api : TcpApi) (laws : StreamLaws api) where
  open api use {World}

  -- What has happened to a connection that was c, with the bytes of the data that lwIP handed over
  -- without an error. Between the callbacks lwIP goes on by itself: it leaves the buffers that the
  -- connection holds, and what it was given, as they are.
  pub data Session (c : TcpConnection) (w : World) : List ℕ → TcpConnection → World → Type 0 where
    opened : Session c w [] c w
    lwip :
        (bs : List ℕ) (d : TcpConnection) (v v' : World)
        → Session c w bs d v
        → laws.queued v' d.control_block ≡ laws.queued v d.control_block
        → laws.content v' d.write_buffer ≡ laws.content v d.write_buffer
        → Holds api laws d.write_buffer v'
        → Session c w bs d v'
    heard :
        (bs : List ℕ) (d : TcpConnection) (v : World) (p : ℕ) (err : Err)
        → Session c w bs d v
        → d.state ≡ established
        → is_ok err ≡ true
        → HoldsBoth api laws d p v
        → Session c w
            (bs ++ laws.content v (some p))
            (recv api (some (echo api)) d (some p) err v).1.0
            (recv api (some (echo api)) d (some p) err v).1.1
    failed :
        (bs : List ℕ) (d : TcpConnection) (v : World) (p : ℕ) (err : Err)
        → Session c w bs d v
        → is_ok err ≡ false
        → HoldsBoth api laws d p v
        → Session c w bs
            (recv api (some (echo api)) d (some p) err v).1.0
            (recv api (some (echo api)) d (some p) err v).1.1
    acked :
        (bs : List ℕ) (d : TcpConnection) (v : World)
        → Session c w bs d v
        → Session c w bs (sent api d v).1.0 (sent api d v).1.1
    polled :
        (bs : List ℕ) (d : TcpConnection) (v : World)
        → Session c w bs d v
        → Session c w bs (poll api d v).1.0 (poll api d v).1.1
    ended :
        (bs : List ℕ) (d : TcpConnection) (v : World) (err : Err)
        → Session c w bs d v
        → Session c w bs
            (recv api (some (echo api)) d none err v).1.0
            (recv api (some (echo api)) d none err v).1.1

  -- The bytes so far, and the buffers.
  pub record Faithful (all : List ℕ) (d : TcpConnection) (v : World) : Type 0 where
    pub stream_all : stream api laws d v ≡ all
    pub holds : Holds api laws d.write_buffer v
    pub read_none : d.read_buffer ≡ none
    pub closed_empty : d.state ≡ closed → d.write_buffer ≡ none

  Kept-Faithful :
      (all : List ℕ) (c : TcpConnection) (w : World) (d : TcpConnection) (v : World)
      → Kept api laws c w d v
      → c.state ≢ closed
      → Faithful all c w
      → Faithful all d v
  Kept-Faithful all c w d v k o f = record {
    stream_all = k.stream_kept ∙ f.stream_all;
    holds = k.holds;
    read_none = k.alike.2 ∙ f.read_none;
    closed_empty = λ e. absurd (o (sym k.alike.0 ∙ e));
  }

  -- Nothing waits, and lwIP was given nothing more.
  moved-Faithful :
      (all : List ℕ) (c : TcpConnection) (w w' : World) (s : ConnectionState)
      → c.write_buffer ≡ none
      → laws.queued w' c.control_block ≡ laws.queued w c.control_block
      → Faithful all c w
      → Faithful all (record c { state = s }) w'
  moved-Faithful all c w w' s b e f = record {
    stream_all =
        ap₂ (◌++◌) e (
          ap (laws.content w') b
          ∙ laws.content_null w'
          ∙ sym (laws.content_null w)
          ∙ ap (laws.content w) (sym b))
        ∙ f.stream_all;
    holds = λ q. ground (arith, ap (λ x. own x q) b);
    read_none = f.read_none;
    closed_empty = λ _. b;
  }

  freed-Faithful :
      (all : List ℕ) (c : TcpConnection) (w : World) (p : ℕ)
      → HoldsBoth api laws c p w
      → Faithful all c w
      → Faithful all c (api.pbuf_free w (some p)).1
  freed-Faithful all c w p h f =
      let left : Holds api laws c.write_buffer (api.pbuf_free w (some p)).1 =
        λ q. ground (arith, laws.free_held w p q, h q) in
      record {
        stream_all =
            ap₂ (◌++◌) (laws.free_queued w c.control_block p)
              (freed-content api laws p c.write_buffer w left)
            ∙ f.stream_all;
        holds = left;
        read_none = f.read_none;
        closed_empty = f.closed_empty;
      }

  module _ (closes : CloseLaws api laws) where
    close_result-Faithful :
        (e : Err) (all : List ℕ) (c : TcpConnection) (w : World)
        → c.write_buffer ≡ none
        → Faithful all c w
        → let r = close_result api e c w in Faithful all r.0 r.1
    close_result-Faithful err_mem all c w b f = f
    close_result-Faithful err_ok all c w b f = moved-Faithful all c w w closed b refl f
    close_result-Faithful _ all c w b f =
        moved-Faithful all c w _ closed b (closes.abort_queued w c.control_block) f

    close-Faithful :
        (all : List ℕ) (c : TcpConnection) (w : World)
        → c.write_buffer ≡ none
        → Faithful all c w
        → let r = close api c w in Faithful all r.0 r.1
    unfolding close
    close-Faithful all c w b f =
        let (e, w1) = api.tcp_close w c.control_block in
        close_result-Faithful e all c w1 b
          (moved-Faithful all c w w1 c.state b (closes.close_queued w c.control_block) f)

    -- With data in the write buffer the connection is not closed.
    written-Faithful :
        (all : List ℕ) (c : TcpConnection) (w : World) (p : ℕ)
        → c.write_buffer ≡ some p
        → Faithful all c w
        → let r = write_to_tcp api c w in Faithful all r.0 r.1
    written-Faithful all c w p e f =
        let r = write_to_tcp api c w in
        Kept-Faithful all c w r.0 r.1 (write_to_tcp-Kept api laws c w f.holds)
          (λ h. cc (f.closed_empty h, e)) f

    serve-Faithful :
        (b : Option ℕ) (all : List ℕ) (c : TcpConnection) (w : World)
        → c.write_buffer ≡ b
        → Faithful all c w
        → let r = serve api b c w in Faithful all r.0 r.1
    unfolding serve
    serve-Faithful none all c w e f = elim (Bool-cases (is_closing c.state)) [
      | inl h ↦ rw h (close-Faithful all c w e f)
      | inr h ↦ rw h f
    ]
    serve-Faithful (some p) all c w e f = written-Faithful all c w p e f

    end-Faithful :
        (b : Option ℕ) (all : List ℕ) (c : TcpConnection) (w : World)
        → c.write_buffer ≡ b
        → Faithful all c w
        → let r = recv_end api b c w in Faithful all r.0 r.1
    unfolding recv_end
    end-Faithful none all c w e f = close-Faithful all c w e f
    end-Faithful (some p) all c w e f = written-Faithful all c w p e f

    heard-Faithful :
        (all : List ℕ) (c : TcpConnection) (w : World) (p : ℕ) (err : Err)
        → c.state ≡ established
        → is_ok err ≡ true
        → HoldsBoth api laws c p w
        → Faithful all c w
        → let r = recv api (some (echo api)) c (some p) err w in
          Faithful (all ++ laws.content w (some p)) r.1.0 r.1.1
    heard-Faithful all c w p err o ok h f =
        let k = recv-Echoed api laws c p err w ok o f.read_none h in
        record {
          stream_all = k.stream_added ∙ ap (λ t. t ++ laws.content w (some p)) f.stream_all;
          holds = k.holds;
          read_none = k.read_buffer;
          closed_empty = λ e. cc (k.state, o, e);
        }

    Session-Faithful :
        (c : TcpConnection) (w : World) (all bs : List ℕ) (d : TcpConnection) (v : World)
        → Session c w bs d v
        → Faithful all c w
        → Faithful (all ++ bs) d v
    unfolding sent poll recv
    Session-Faithful c w all _ _ _ opened f = rw append-nil f
    Session-Faithful c w all _ _ _ (lwip bs d v0 v s q e h) f =
        let g = Session-Faithful c w all bs d v0 s f in
        record {
          stream_all = ap₂ (◌++◌) q e ∙ g.stream_all;
          holds = h;
          read_none = g.read_none;
          closed_empty = g.closed_empty;
        }
    Session-Faithful c w all _ _ _ (heard bs d v p err s o ok h) f =
        let g = heard-Faithful (all ++ bs) d v p err o ok h (Session-Faithful c w all bs d v s f) in
        let r = recv api (some (echo api)) d (some p) err v in
        subst (λ t. Faithful t r.1.0 r.1.1) (append_assoc all bs (laws.content v (some p))) g
    Session-Faithful c w all _ _ _ (failed bs d v p err s bad h) f =
        rw bad (freed-Faithful (all ++ bs) d v p h (Session-Faithful c w all bs d v s f))
    Session-Faithful c w all _ _ _ (acked bs d v s) f =
        serve-Faithful d.write_buffer (all ++ bs) d v refl (Session-Faithful c w all bs d v s f)
    Session-Faithful c w all _ _ _ (polled bs d v s) f =
        serve-Faithful d.write_buffer (all ++ bs) d v refl (Session-Faithful c w all bs d v s f)
    Session-Faithful c w all _ _ _ (ended bs d v err s) f =
        let g = Session-Faithful c w all bs d v s f in
        end-Faithful d.write_buffer (all ++ bs) (record d { state = closing }) v refl
          (record {
            stream_all = g.stream_all;
            holds = g.holds;
            read_none = g.read_none;
            closed_empty = λ e. cc e;
          })

    -- Every byte comes back. However the `recv`, `sent` and `poll` callbacks follow one another, with
    -- data arriving only while the connection is established, and whatever lwIP does between them:
    -- from a connection of the echo server that is not closed, holds its write buffer and has no read
    -- buffer, what lwIP was given to send, followed by what waits in the write buffer, is what it was
    -- at the start followed by all the data that lwIP handed over without an error, in order; and
    -- once the connection is closed, lwIP was given all of it. lwIP leaves what it was given as it is
    -- when a connection is closed or aborted.
    pub Session-stream :
        (c : TcpConnection) (w : World) (bs : List ℕ) (d : TcpConnection) (v : World)
        → c.state ≢ closed
        → c.read_buffer ≡ none
        → Holds api laws c.write_buffer w
        → Session c w bs d v
        → (stream api laws d v ≡ stream api laws c w ++ bs)
          × (d.state ≡ closed → laws.queued v d.control_block ≡ stream api laws c w ++ bs)
    Session-stream c w bs d v o r h s =
        let f = Session-Faithful c w (stream api laws c w) bs d v s (record {
          stream_all = refl;
          holds = h;
          read_none = r;
          closed_empty = λ e. absurd (o e);
        }) in
        (
          f.stream_all,
          λ e.
              sym (append-nil _)
              ∙ ap (λ t. laws.queued v d.control_block ++ t)
                  (sym (laws.content_null v) ∙ ap (laws.content v) (sym (f.closed_empty e)))
              ∙ f.stream_all,
        )
