-- ===== src/Tcp/Server.antt =====
-- The server: the listening connection, the accepted ones, and the functions that lwIP calls
-- (src/network/TcpServer.cpp). `etl::list<TcpConnection, 10>` is the number of its nodes and each
-- node by its position, since the addresses of the nodes are stable and the code only appends.
use lwip_server.Base.{ℕ, ◌+◌, ◌==◌, Bool, true, false, not, Option, none, some, if◌then◌else◌, leb}
use lwip_server.Lwip.{Err, err_ok, err_mem, err_abrt, is_ok}
use lwip_server.Tcp.Api.{TcpApi, listener, client}
use lwip_server.Tcp.Connection.{
  listening, established, is_closed, TcpConnection, fresh, RecvCallback, close, recv, sent, poll,
  error, write, echo,
}

abbrev pub max_connections : ℕ
max_connections = 10

abbrev pub poll_interval : ℕ
poll_interval = 0

abbrev pub echo_port : ℕ
echo_port = 7

abbrev pub same_block : Option ℕ → ℕ → Bool
same_block none p = false
same_block (some q) p = q == p

module _ (api : TcpApi) where
  open api use {World}

  pub record TcpServer : Type 0 where
    pub listening_connection : TcpConnection
    pub connections : ℕ → TcpConnection
    pub count : ℕ
    pub recv_callback : Option (RecvCallback api)

  -- The server and lwIP's state.
  abbrev pub System : Type 0
  System = TcpServer × World

  unfoldable pub put : ℕ → TcpConnection → TcpServer → TcpServer
  put i c s = record s { connections = λ j. if i == j then c else s.connections j }

  unfoldable pub listen : ℕ → TcpServer → World → System
  listen pcb s w =
      let (lpcb, w1) = api.tcp_listen w pcb in
      let w2 = api.tcp_accept w1 lpcb in
      let w3 = api.tcp_arg w2 lpcb listener in
      (
        record s {
          listening_connection = record s.listening_connection {
            control_block = lpcb;
            state = listening;
          };
        },
        w3,
      )

  unfoldable pub bind : ℕ → ℕ → Option ℕ → TcpServer → World → System
  unfolding listen close
  bind ip port none s w = (s, w)
  bind ip port (some pcb) s w =
      let (err, w1) = api.tcp_bind w pcb ip port in
      if is_ok err
      then listen pcb s w1
      else let (l, w2) = close api s.listening_connection w1 in
        (record s { listening_connection = l }, w2)

  unfoldable pub init : ℕ → ℕ → TcpServer → World → System
  unfolding bind
  init ip port s w =
      if not (is_closed s.listening_connection.state)
      then (s, w)
      else let (pcb, w1) = api.tcp_new w in
        bind ip port pcb
          (record s {
            listening_connection = record s.listening_connection {
              has_server = true;
              control_block = pcb;
            };
          })
          w1

  abbrev pub register_recv_callback : RecvCallback api → TcpServer → TcpServer
  register_recv_callback cb s = record s { recv_callback = some cb }

  -- lwIP may hand over the null pointer, with `ERR_MEM`, where it has no memory for a connection.
  unfoldable pub refuse : Err → Option ℕ → TcpServer → World → Err × System
  refuse err pcb s w =
      let (err_close, w1) = api.tcp_close w pcb in
      if not (is_ok err_close) then (err_abrt, (s, api.tcp_abort w1 pcb)) else (err, (s, w1))

  unfoldable pub establish : Option ℕ → TcpServer → World → Err × System
  unfolding put
  establish pcb s w =
      let w1 = api.tcp_setprio w pcb api.tcp_prio_min in
      let w2 = api.tcp_arg w1 pcb (client s.count) in
      let w3 = api.tcp_recv w2 pcb in
      let w4 = api.tcp_err w3 pcb in
      let w5 = api.tcp_poll w4 pcb poll_interval in
      let w6 = api.tcp_sent w5 pcb in
      let c = record fresh { control_block = pcb; has_server = true; state = established } in
      (err_ok, (record (put s.count c s) { count = s.count + 1 }, w6))

  unfoldable pub full : TcpServer → Bool
  full s = leb max_connections s.count

  unfoldable pub accept : Option ℕ → Err → TcpServer → World → Err × System
  unfolding refuse establish full
  accept pcb err s w =
      let err' = if not (is_ok err) then err else if full s then err_mem else err_ok in
      if not (is_ok err') then refuse err' pcb s w else establish pcb s w

  -- The callbacks that lwIP calls, on `arg`: null, or the listening connection.
  unfoldable pub on_accept : Bool → Option ℕ → Err → TcpServer → World → Err × System
  unfolding accept
  on_accept false pcb err s w = (err_abrt, (s, api.tcp_abort w pcb))
  on_accept true pcb err s w = accept pcb err s w

  -- The guards that `recv`, `sent` and `poll` share, on `arg`: null, or an accepted connection.
  unfoldable pub guarded :
      Option ℕ
      → ℕ
      → (TcpConnection → World → Err × (TcpConnection × World))
      → TcpServer
      → World
      → Err × System
  unfolding put
  guarded none tpcb f s w = (err_abrt, (s, api.tcp_abort w (some tpcb)))
  guarded (some i) tpcb f s w =
      if not (same_block (s.connections i).control_block tpcb)
      then (err_abrt, (s, api.tcp_abort w (some tpcb)))
      else let (err, r) = f (s.connections i) w in (err, (put i r.0 s, r.1))

  unfoldable pub on_recv : Option ℕ → ℕ → Option ℕ → Err → TcpServer → World → Err × System
  unfolding guarded recv
  on_recv arg tpcb p err s w = guarded arg tpcb (λ c. recv api s.recv_callback c p err) s w

  unfoldable pub on_sent : Option ℕ → ℕ → TcpServer → World → Err × System
  unfolding guarded sent
  on_sent arg tpcb s w = guarded arg tpcb (sent api) s w

  unfoldable pub on_poll : Option ℕ → ℕ → TcpServer → World → Err × System
  unfolding guarded poll
  on_poll arg tpcb s w = guarded arg tpcb (poll api) s w

  unfoldable pub on_error : Option ℕ → TcpServer → World → System
  unfolding put error
  on_error none s w = (s, w)
  on_error (some i) s w = let (c, w1) = error api (s.connections i) w in (put i c s, w1)

  -- The application writes to an accepted connection.
  unfoldable pub write_to : ℕ → Option ℕ → TcpServer → World → System
  unfolding put write
  write_to i p s w = let (c, w1) = write api (s.connections i) p w in (put i c s, w1)

  -- `TcpEchoServer::init`, with the address for any interface.
  unfoldable pub echo_init : ℕ → TcpServer → World → System
  unfolding init
  echo_init ip_addr_any s w = init ip_addr_any echo_port (register_recv_callback (echo api) s) w
