-- ===== src/Tcp/Tests/Small.antt =====
-- A small lwIP: a pool of packet buffers, each with the one below it as its next, and one queue
-- with room for a number of bytes.
use lwip_server.Base.{
  ℕ, zero, suc, ◌==◌, ◌+◌, ◌-◌, Option, none, some, List, [], ◌∷◌, ◌++◌, length, if◌then◌else◌, leb,
}
use lwip_server.Lwip.{Err, err_ok, err_mem}
use lwip_server.Tcp.Api.{TcpApi}

pub record Pool : Type 0 where
  pub bytes : ℕ → List ℕ
  pub sent_bytes : List ℕ
  pub room : ℕ
  pub refs : ℕ → ℕ

abbrev pub below : ℕ → Option ℕ
below zero = none
below (suc n) = some n

abbrev pub bytes_from : Pool → ℕ → List ℕ
bytes_from w zero = w.bytes 0
bytes_from w (suc n) = w.bytes (suc n) ++ bytes_from w n

abbrev pub chain_bytes : Pool → Option ℕ → List ℕ
chain_bytes w none = []
chain_bytes w (some p) = bytes_from w p

abbrev pub queue : Pool → Option ℕ → List ℕ → Err × Pool
queue w c bs =
    if leb (length bs) w.room
    then (err_ok, record w { sent_bytes = w.sent_bytes ++ bs; room = w.room - length bs })
    else (err_mem, w)

abbrev pub lengthen : Pool → List ℕ → ℕ → List ℕ
lengthen w bs zero = w.bytes 0 ++ bs
lengthen w bs (suc n) = w.bytes (suc n)

abbrev pub link : Pool → ℕ → ℕ → Pool
link w h t = record w { bytes = lengthen w (bytes_from w t) }

abbrev pub take_ref : Pool → ℕ → Pool
take_ref w p = record w { refs = λ q. if p == q then w.refs q + 1 else w.refs q }

abbrev pub give_ref : Pool → Option ℕ → ℕ × Pool
give_ref w none = (0, w)
give_ref w (some p) = (1, record w { refs = λ q. if p == q then w.refs q - 1 else w.refs q })

abbrev pub buffers : Option ℕ → ℕ
buffers none = 0
buffers (some p) = suc p

abbrev pub tiny : TcpApi
tiny = record {
  World = Pool;
  tcp_new = λ w. (some 100, w);
  tcp_bind = λ w _ _ _. (err_ok, w);
  tcp_listen = λ w _. (some 101, w);
  tcp_accept = λ w _. w;
  tcp_arg = λ w _ _. w;
  tcp_prio_min = 1;
  tcp_setprio = λ w _ _. w;
  tcp_recv = λ w _. w;
  tcp_err = λ w _. w;
  tcp_poll = λ w _ _. w;
  tcp_sent = λ w _. w;
  tcp_close = λ w _. (err_ok, w);
  tcp_abort = λ w _. w;
  tcp_sndbuf = λ w _. w.room;
  tcp_write = queue;
  tcp_output = λ w _. w;
  tcp_recved = λ w _ _. w;
  pbuf_ref = take_ref;
  pbuf_free = give_ref;
  pbuf_chain = link;
  tot_len = λ w p. length (bytes_from w p);
  payload = λ w p. w.bytes p;
  next = λ w. below;
  pbuf_clen = λ w. buffers;
}

abbrev bytes_of : ℕ → List ℕ
bytes_of zero = 1 ∷ 2 ∷ 3 ∷ []
bytes_of (suc zero) = 4 ∷ []
bytes_of _ = 5 ∷ 6 ∷ []

-- Three buffers, of two, one and three bytes, and room for four.
abbrev pub pool : Pool
pool = record { bytes = bytes_of; sent_bytes = 9 ∷ []; room = 4; refs = λ _. 1 }
