-- ===== src/Tcp/Close.antt =====
-- When a connection is closed, and that what waits in its buffer goes first
-- (src/network/TcpServer.cpp: `recv`, `sent`, `poll`, `close`).
use lwip_server.Base.{ℕ, ◌≡◌, ◌≢◌, refl, sym, ap, ◌∙◌, Option, none, some, arith}
use lwip_server.Lwip.{Err, err_ok, err_mem, err_abrt, err_arg, err_other}
use lwip_server.Tcp.Api.{TcpApi}
use lwip_server.Tcp.Drain.{write_to_tcp-Alike}
use lwip_server.Tcp.Connection.{
  closed, closing, is_closing, TcpConnection, close, serve, sent, poll, recv_end, recv,
  RecvCallback,
}

module _ (api : TcpApi) where
  open api use {World}

  -- The three callbacks that may close a connection.
  pub data Serves (c : TcpConnection) (w : World) : Err × (TcpConnection × World) → Type 0 where
    by_sent : Serves c w (sent api c w)
    by_poll : Serves c w (poll api c w)
    by_end : (cb : Option (RecvCallback api)) (err : Err) → Serves c w (recv api cb c none err w)

  -- What the answer of `tcp_close`, which left the state v, makes of the connection: without memory
  -- nothing, with any other error it is aborted, and it is closed but in the first case.
  pub Answered : Err → TcpConnection → World → TcpConnection × World → Type 0
  Answered err_mem c v r = (r.0 ≡ c) × (r.1 ≡ v)
  Answered err_ok c v r = (r.0 ≡ record c { state = closed }) × (r.1 ≡ v)
  Answered _ c v r = (r.0 ≡ record c { state = closed }) × (r.1 ≡ api.tcp_abort v c.control_block)

  -- What a callback reports and leaves of a connection that it tries to close.
  abbrev pub Tried : TcpConnection → World → Err × (TcpConnection × World) → Type 0
  Tried c w r = let (e, v) = api.tcp_close w c.control_block in (r.0 ≡ err_ok) × Answered e c v r.1

  close-Answered :
      (e : Err) (c : TcpConnection) (w : World)
      → (api.tcp_close w c.control_block).0 ≡ e
      → Answered e c (api.tcp_close w c.control_block).1 (close api c w)
  unfolding close Answered
  close-Answered err_mem c w h = rw h (refl, refl)
  close-Answered err_ok c w h = rw h (refl, refl)
  close-Answered err_abrt c w h = rw h (refl, refl)
  close-Answered err_arg c w h = rw h (refl, refl)
  close-Answered (err_other n) c w h = rw h (refl, refl)

  serve-Answered :
      (b : Option ℕ) (c : TcpConnection) (w : World)
      → c.state ≡ closing
      → b ≡ none
      → let (e, v) = api.tcp_close w c.control_block in Answered e c v (serve api b c w)
  unfolding serve
  serve-Answered b c w e h = rw (h, ap is_closing e) (close-Answered _ c w refl)

  same : (c : TcpConnection) → c.state ≡ closing → record c { state = closing } ≡ c
  same c e = ap (λ s. record c { state = s }) (sym e)

  end-Answered :
      (b : Option ℕ) (c : TcpConnection) (w : World)
      → c.state ≡ closing
      → b ≡ none
      → let (e, v) = api.tcp_close w c.control_block in
        Answered e c v (recv_end api b (record c { state = closing }) w)
  unfolding recv_end
  end-Answered b c w e h = rw (h, same c e) (close-Answered _ c w refl)

  -- A connection that waits to close and has nothing left to write is closed by the next `sent`,
  -- `poll` or end of the remote's data, which report no error: if lwIP's `tcp_close` returns
  -- `ERR_OK` the connection's state is Closed, with any other error but `ERR_MEM` it is Closed as
  -- well and the control block has been aborted, and if lwIP is out of memory the connection is as it
  -- was, still waiting to close. Nothing else of the connection changes, and lwIP is called for
  -- nothing else.
  pub served-Tried :
      (c : TcpConnection) (w : World) (r : Err × (TcpConnection × World))
      → Serves c w r
      → c.state ≡ closing
      → c.write_buffer ≡ none
      → Tried c w r
  unfolding sent poll recv
  served-Tried c w r by_sent e b = (refl, serve-Answered c.write_buffer c w e b)
  served-Tried c w r by_poll e b = (refl, serve-Answered c.write_buffer c w e b)
  served-Tried c w r (by_end cb err) e b = (refl, end-Answered c.write_buffer c w e b)

  apart : closing ≢ closed
  apart = ground arith

  serve-Empty :
      (b : Option ℕ) (c : TcpConnection) (w : World)
      → c.state ≢ closed
      → (serve api b c w).0.state ≡ closed
      → b ≡ none
  unfolding serve
  serve-Empty none c w h e = refl
  serve-Empty (some p) c w h e = absurd (h (sym (write_to_tcp-Alike api c w).0 ∙ e))

  end-Empty :
      (b : Option ℕ) (c : TcpConnection) (w : World)
      → c.state ≡ closing
      → (recv_end api b c w).0.state ≡ closed
      → b ≡ none
  unfolding recv_end
  end-Empty none c w h e = refl
  end-Empty (some p) c w h e = absurd (apart (sym h ∙ sym (write_to_tcp-Alike api c w).0 ∙ e))

  -- A `sent`, a `poll` or the end of the remote's data closes a connection that was not closed only
  -- when nothing waits in its write buffer.
  served-Empty :
      (c : TcpConnection) (w : World) (r : Err × (TcpConnection × World))
      → Serves c w r
      → c.state ≢ closed
      → r.1.0.state ≡ closed
      → c.write_buffer ≡ none
  unfolding sent poll recv
  served-Empty c w r by_sent h e = serve-Empty c.write_buffer c w h e
  served-Empty c w r by_poll h e = serve-Empty c.write_buffer c w h e
  served-Empty c w r (by_end cb err) h e =
      end-Empty c.write_buffer (record c { state = closing }) w refl e
