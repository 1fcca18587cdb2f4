-- ===== src/Tcp/Connection.antt =====
-- One connection of the TCP server and the functions on it (src/network/TcpServer.cpp), each over
-- the connection and lwIP's state. `server` always points to the one server, so the model keeps
-- only whether it is set.
use lwip_server.Base.{
  ℕ, zero, suc, ◌==◌, Bool, true, false, not, Option, none, some, length, if◌then◌else◌, ltb,
}
use lwip_server.Lwip.{Err, err_ok, err_mem, is_ok}
use lwip_server.Tcp.Api.{TcpApi, ref_next}

pub data ConnectionState : Type 0 where
  closed listening established closing : ConnectionState

abbrev pub is_closed : ConnectionState → Bool
is_closed closed = true
is_closed _ = false

abbrev pub is_established : ConnectionState → Bool
is_established established = true
is_established _ = false

abbrev pub is_closing : ConnectionState → Bool
is_closing closing = true
is_closing _ = false

pub record TcpConnection : Type 0 where
  pub state : ConnectionState
  pub has_server : Bool
  pub control_block : Option ℕ
  pub write_buffer : Option ℕ
  pub read_buffer : Option ℕ
  pub write_offset : ℕ
  pub read_offset : ℕ

-- A connection as it is constructed.
abbrev pub fresh : TcpConnection
fresh = record {
  state = closed;
  has_server = false;
  control_block = none;
  write_buffer = none;
  read_buffer = none;
  write_offset = 0;
  read_offset = 0;
}

module _ (api : TcpApi) where
  open api use {World}

  -- The application's receive callback.
  abbrev pub RecvCallback : Type 0
  RecvCallback = TcpConnection → World → TcpConnection × World

  abbrev pub close_result : Err → TcpConnection → World → TcpConnection × World
  close_result err_mem c w = (c, w)
  close_result err_ok c w = (record c { state = closed }, w)
  close_result _ c w = (record c { state = closed }, api.tcp_abort w c.control_block)

  unfoldable pub close : TcpConnection → World → TcpConnection × World
  close c w = let (err, w1) = api.tcp_close w c.control_block in close_result err c w1

  -- The leading buffer is done with: the next one takes its place.
  unfoldable pub move_on : ℕ → TcpConnection → World → TcpConnection × World
  move_on p c w =
      let q = api.next w p in
      (record c { write_buffer = q }, (api.pbuf_free (ref_next api q w) (some p)).1)

  -- One turn of the loop of `writeToTcp`, and whether it goes on.
  unfoldable pub write_head : Option ℕ → TcpConnection → World → Bool × (TcpConnection × World)
  unfolding move_on
  write_head none c w = (false, (c, w))
  write_head (some p) c w =
      if ltb (api.tcp_sndbuf w c.control_block) (length (api.payload w p))
      then (false, (c, w))
      else let (err, w1) = api.tcp_write w c.control_block (api.payload w p) in
        if not (is_ok err) then (false, (c, w1)) else (true, move_on p c w1)

  -- The loop, on fuel.
  unfoldable pub drain : ℕ → TcpConnection → World → TcpConnection × World
  unfolding write_head
  drain zero c w = (c, w)
  drain (suc n) c w =
      let turn = write_head c.write_buffer c w in
      let rest = drain n turn.1.0 turn.1.1 in if turn.0 then rest else turn.1

  -- A chain of n buffers takes n turns that go on, and one that does not.
  unfoldable pub write_to_tcp : TcpConnection → World → TcpConnection × World
  unfolding drain
  write_to_tcp c w =
      let (c', w') = drain (suc (api.pbuf_clen w c.write_buffer)) c w in
      (c', api.tcp_output w' c'.control_block)

  -- What `write` does to the buffers before it sends.
  unfoldable pub append : Option ℕ → ℕ → TcpConnection → World → TcpConnection × World
  append (some h) p c w = (c, api.pbuf_chain w h p)
  append none p c w = (record c { write_buffer = some p }, api.pbuf_ref w p)

  unfoldable pub write : TcpConnection → Option ℕ → World → TcpConnection × World
  unfolding write_to_tcp append
  write c none w = (c, w)
  write c (some p) w =
      if not (is_established c.state)
      then (c, w)
      else if api.tot_len w p == 0
      then (c, w)
      else let (c', w') = append c.write_buffer p c w in write_to_tcp c' w'

  -- `sent` and `poll` have the same body: data first, and the close that was waiting for it.
  unfoldable pub serve : Option ℕ → TcpConnection → World → TcpConnection × World
  unfolding write_to_tcp close
  serve (some _) c w = write_to_tcp c w
  serve none c w = if is_closing c.state then close c w else (c, w)

  unfoldable pub sent : TcpConnection → World → Err × (TcpConnection × World)
  unfolding serve
  sent c w = (err_ok, serve c.write_buffer c w)

  unfoldable pub poll : TcpConnection → World → Err × (TcpConnection × World)
  unfolding serve
  poll c w = (err_ok, serve c.write_buffer c w)

  -- The remote end has closed.
  unfoldable pub recv_end : Option ℕ → TcpConnection → World → TcpConnection × World
  unfolding write_to_tcp close
  recv_end (some _) c w = write_to_tcp c w
  recv_end none c w = close c w

  unfoldable pub append_read : Option ℕ → ℕ → TcpConnection → World → TcpConnection × World
  append_read (some h) p c w = (c, api.pbuf_chain w h p)
  append_read none p c w = (record c { read_buffer = some p }, api.pbuf_ref w p)

  abbrev pub call : Option RecvCallback → TcpConnection → World → TcpConnection × World
  call none c w = (c, w)
  call (some f) c w = f c w

  unfoldable pub recv :
      Option RecvCallback → TcpConnection → Option ℕ → Err → World → Err × (TcpConnection × World)
  unfolding recv_end append_read
  recv cb c none err w = (err_ok, recv_end c.write_buffer (record c { state = closing }) w)
  recv cb c (some p) err w =
      if not (is_ok err)
      then (err, (c, (api.pbuf_free w (some p)).1))
      else let w1 = api.tcp_recved w c.control_block (api.tot_len w p) in
        let (c2, w2) = append_read c.read_buffer p c w1 in
        let (c3, w3) = call cb c2 w2 in (err_ok, (c3, (api.pbuf_free w3 (some p)).1))

  unfoldable pub error : TcpConnection → World → TcpConnection × World
  error c w =
      let w1 = (api.pbuf_free w c.read_buffer).1 in
      let w2 = (api.pbuf_free w1 c.write_buffer).1 in
      (
        record c { state = closed; control_block = none; write_buffer = none; read_buffer = none },
        w2,
      )

  -- `TcpEchoServer::recv`.
  unfoldable pub echo : TcpConnection → World → TcpConnection × World
  unfolding write
  echo c w =
      let (c1, w1) = write c c.read_buffer w in
      (record c1 { read_buffer = none }, (api.pbuf_free w1 c1.read_buffer).1)
