-- ===== src/Tcp/Slots.antt =====
-- The server's list of ten connections (src/network/TcpServer.cpp: `accept`), over every order of
-- the callbacks.
use lwip_server.Base.{ℕ, ◌+◌, ◌≤◌, ◌<◌, ◌≡◌, Bool, true, false, Option, ◌⊎◌, arith}
use lwip_server.Lwip.{Err, is_ok}
use lwip_server.Tcp.Api.{TcpApi}
use lwip_server.Tcp.Connection.{TcpConnection}
use lwip_server.Tcp.Server.{
  TcpServer, System, max_connections, init, bind, listen, accept, refuse, establish, full,
  on_accept, guarded, on_recv, on_sent, on_poll, on_error, write_to, put,
}

module _ (api : TcpApi) where
  open api use {World}

  -- A step of the system: lwIP goes on by itself, calls a callback, or the application calls the
  -- server.
  pub data Step : System api → System api → Type 0 where
    lwip : (s : TcpServer api) (w w' : World) → Step (s, w) (s, w')
    starts : (ip port : ℕ) (s : TcpServer api) (w : World) → Step (s, w) (init api ip port s w)
    accepts :
        (arg : Bool) (pcb : Option ℕ) (err : Err) (s : TcpServer api) (w : World)
        → Step (s, w) (on_accept api arg pcb err s w).1
    receives :
        (arg : Option ℕ) (pcb : ℕ) (p : Option ℕ) (err : Err) (s : TcpServer api) (w : World)
        → Step (s, w) (on_recv api arg pcb p err s w).1
    sends :
        (arg : Option ℕ) (pcb : ℕ) (s : TcpServer api) (w : World)
        → Step (s, w) (on_sent api arg pcb s w).1
    polls :
        (arg : Option ℕ) (pcb : ℕ) (s : TcpServer api) (w : World)
        → Step (s, w) (on_poll api arg pcb s w).1
    fails : (arg : Option ℕ) (s : TcpServer api) (w : World) → Step (s, w) (on_error api arg s w)
    writes :
        (i : ℕ) (p : Option ℕ) (s : TcpServer api) (w : World) → Step (s, w) (write_to api i p s w)

  pub data Steps : System api → System api → Type 0 where
    start : {t : System api} → Steps t t
    after : {t u v : System api} → Steps t u → Step u v → Steps t v

  -- A callback that is refused leaves the server as it is.
  guarded-count :
      (arg : Option ℕ) (pcb : ℕ) (f : TcpConnection → World → Err × (TcpConnection × World))
      (s : TcpServer api) (w : World)
      → (guarded api arg pcb f s w).1.0.count ≡ s.count
  unfolding guarded put
  guarded-count arg pcb f s w = ground arith

  accept-count :
      (arg : Bool) (pcb : Option ℕ) (err : Err) (s : TcpServer api) (w : World)
      → let t = (on_accept api arg pcb err s w).1.0 in
        (t.count ≡ s.count) ⊎ ((t.count ≡ s.count + 1) × (s.count < max_connections))
  unfolding on_accept accept refuse establish full
  accept-count arg pcb err s w = ground arith

  init-count :
      (ip port : ℕ) (s : TcpServer api) (w : World) → (init api ip port s w).0.count ≡ s.count
  unfolding init bind listen
  init-count ip port s w = ground arith

  error-count :
      (arg : Option ℕ) (s : TcpServer api) (w : World) → (on_error api arg s w).0.count ≡ s.count
  unfolding on_error put
  error-count arg s w = ground arith

  guarded_step :
      (arg : Option ℕ) (pcb : ℕ) (f : TcpConnection → World → Err × (TcpConnection × World))
      (s : TcpServer api) (w : World)
      → s.count ≤ max_connections
      → let n = (guarded api arg pcb f s w).1.0.count in (s.count ≤ n) × (n ≤ max_connections)
  guarded_step arg pcb f s w h = ground (arith, guarded-count arg pcb f s w)

  -- Each step of the system keeps the number of connections within ten, and never lowers it: no
  -- function takes a connection from the list, whatever has become of it.
  pub Step-count :
      {t u : System api}
      → Step t u
      → t.0.count ≤ max_connections
      → (t.0.count ≤ u.0.count) × (u.0.count ≤ max_connections)
  unfolding on_recv on_sent on_poll write_to put
  Step-count (lwip s w w') h = (omega arith, h)
  Step-count (starts ip port s w) h = ground (arith, init-count ip port s w)
  Step-count (accepts arg pcb err s w) h = ground (arith, accept-count arg pcb err s w)
  Step-count (receives arg pcb p err s w) h = guarded_step arg pcb _ s w h
  Step-count (sends arg pcb s w) h = guarded_step arg pcb _ s w h
  Step-count (polls arg pcb s w) h = guarded_step arg pcb _ s w h
  Step-count (fails arg s w) h = ground (arith, error-count arg s w)
  Step-count (writes i p s w) h = (omega arith, h)

  steps-full :
      {t u : System api} → Steps t u → t.0.count ≡ max_connections → u.0.count ≡ max_connections
  steps-full start h = h
  steps-full (after r s) h =
      let i = steps-full r h in
      let (lo, hi) = Step-count s (omega (arith, i)) in omega (arith, lo, hi, i)

  accept_full :
      (arg : Bool) (pcb : Option ℕ) (err : Err) (s : TcpServer api) (w : World)
      → full api s ≡ true
      → let r = on_accept api arg pcb err s w in (is_ok r.0 ≡ false) × (r.1.0 ≡ s)
  unfolding on_accept accept refuse
  accept_full arg pcb err s w h = ground arith

  -- Once the list has ten connections, after any steps of the system every attempt to connect is
  -- refused and leaves the server as it is.
  pub accept_refused :
      {t u : System api}
      → t.0.count ≡ max_connections
      → Steps t u
      → (arg : Bool) (pcb : Option ℕ) (err : Err)
      → let r = on_accept api arg pcb err u.0 u.1 in (is_ok r.0 ≡ false) × (r.1.0 ≡ u.0)
  unfolding full
  accept_refused {u = u} h r arg pcb err =
      accept_full arg pcb err u.0 u.1 (let e = steps-full r h in ground arith)
