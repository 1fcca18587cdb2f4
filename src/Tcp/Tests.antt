-- ===== src/Tcp/Tests.antt =====
-- The theorems on connections at a small lwIP with three packet buffers.
pub mod Small
use lwip_server.Base.{
  ℕ, zero, suc, ◌==◌, ◌+◌, ◌-◌, ◌≤◌, ◌≡◌, refl, sym, ap, true, false, Option, none, some, List, [],
  ◌∷◌, ◌++◌, length, if◌then◌else◌, leb, arith,
}
use mathlib.Core.List.{append_assoc, append-nil}
use lwip_server.Lwip.{Err, err_ok, err_mem, is_ok}
use lwip_server.Tcp.Api.{StreamLaws}
use lwip_server.Tcp.Connection.{
  closed, closing, established, TcpConnection, fresh, write_to_tcp, drain, poll, sent, write, recv,
  echo,
}
use lwip_server.Tcp.Server.{TcpServer, on_accept, on_error}
use lwip_server.Tcp.Stream.{own, stream, Kept}
use lwip_server.Tcp.Write.{drain_ends, write_to_tcp-Kept}
use lwip_server.Tcp.Echo.{HoldsBoth, Echoed, recv-Echoed}
use lwip_server.Tcp.Close.{by_poll, served-Tried, Tried}
use lwip_server.Tcp.Session.{CloseLaws, Session, opened, heard, acked, Session-stream}
use lwip_server.Tcp.Slots.{start, after, fails, Step-count, accept_refused}
use Small.{
  Pool, below, bytes_from, chain_bytes, queue, link, take_ref, give_ref, buffers, tiny, pool,
}

queue_ok :
    (w : Pool) (c : Option ℕ) (bs : List ℕ)
    → is_ok (queue w c bs).0 ≡ true
    → (queue w c bs).1.sent_bytes ≡ w.sent_bytes ++ bs
queue_ok w c bs h = ground arith

queue_failed :
    (w : Pool) (c : Option ℕ) (bs : List ℕ)
    → is_ok (queue w c bs).0 ≡ false
    → (queue w c bs).1.sent_bytes ≡ w.sent_bytes
queue_failed w c bs h = ground arith

queue_bytes : (w : Pool) (c : Option ℕ) (bs : List ℕ) → (queue w c bs).1.bytes ≡ w.bytes
queue_bytes w c bs = ground arith

queue_from :
    (w : Pool) (c p : Option ℕ) (bs : List ℕ) → chain_bytes (queue w c bs).1 p ≡ chain_bytes w p
queue_from w c p bs = ap (λ b. chain_bytes (record w { bytes = b }) p) (queue_bytes w c bs)

link_from : (w : Pool) (h t n : ℕ) → bytes_from (link w h t) n ≡ bytes_from w n ++ bytes_from w t
link_from w h t zero = refl
link_from w h t (suc n) = rw (link_from w h t n, append_assoc) refl

below_from : (w : Pool) (p : ℕ) → chain_bytes w (some p) ≡ w.bytes p ++ chain_bytes w (below p)
below_from w zero = sym (append-nil (w.bytes 0))
below_from w (suc n) = refl

below-buffers : (p : ℕ) → suc p ≡ suc (buffers (below p))
below-buffers zero = refl
below-buffers (suc n) = refl

-- What a buffer holds does not depend on the references.
refs_from :
    (w : Pool) (f : ℕ → ℕ) (p : Option ℕ) → chain_bytes (record w { refs = f }) p ≡ chain_bytes w p
refs_from w f none = refl
refs_from w f (some zero) = refl
refs_from w f (some (suc n)) = ap (λ l. w.bytes (suc n) ++ l) (refs_from w f (some n))

length-zero : (l : List ℕ) → length l ≡ 0 → l ≡ []
length-zero [] h = refl
length-zero (x ∷ l) h = absurd (omega arith)

queue_refs : (w : Pool) (c : Option ℕ) (bs : List ℕ) (p : ℕ) → (queue w c bs).1.refs p ≡ w.refs p
queue_refs w c bs p = ground arith

abbrev tiny_laws : StreamLaws tiny
tiny_laws = record {
  queued = λ w _. w.sent_bytes;
  content = chain_bytes;
  clen_null = λ w. refl;
  clen_next = λ w p. below-buffers p;
  content_null = λ w. refl;
  content_next = below_from;
  write_ok = queue_ok;
  write_failed = queue_failed;
  write_content = queue_from;
  write_next = λ w c p bs. refl;
  write_clen = λ w c p bs. refl;
  tot_len_zero = λ w p h. length-zero (bytes_from w p) h;
  held = λ w. w.refs;
  write_held = queue_refs;
  output_queued = λ w c. refl;
  output_content = λ w c p. refl;
  output_held = λ w c p. refl;
  recved_queued = λ w c n. refl;
  recved_content = λ w c p n. refl;
  recved_held = λ w c n p. refl;
  ref_queued = λ w c p. refl;
  ref_content = λ w p q. refs_from w (take_ref w p).refs q;
  ref_clen = λ w p q. refl;
  ref_held = λ w p q. refl;
  free_queued = λ w c p. refl;
  free_content = λ w p q h. refs_from w (give_ref w (some p)).1.refs (some q);
  free_clen = λ w p q h. refl;
  free_held = λ w p q. refl;
  chain_queued = λ w c h t. refl;
  chain_content = λ w h t. link_from w h t h;
  chain_held = λ w h t p. refl;
}

tiny_close : CloseLaws tiny tiny_laws
tiny_close = record { close_queued = λ w c. refl; abort_queued = λ w c. refl }

abbrev busy : TcpConnection
busy = record fresh { state = established; control_block = some 7; write_buffer = some 2 }

-- One reference to each buffer, of which the write buffer is one.
busy-Holds : (q : ℕ) → own busy.write_buffer q ≤ pool.refs q
busy-Holds q = ground arith

drain_ends_example : drain tiny 9 busy pool ≡ drain tiny 4 busy pool
drain_ends_example = drain_ends tiny tiny_laws 8 busy pool busy-Holds (omega arith)

write_to_tcp-Kept_example :
    let r = write_to_tcp tiny busy pool in Kept tiny tiny_laws busy pool r.0 r.1
write_to_tcp-Kept_example = write_to_tcp-Kept tiny tiny_laws busy pool busy-Holds

-- The reference to buffer 1 is the one that lwIP hands over.
handed-HoldsBoth : HoldsBoth tiny tiny_laws busy 1 pool
handed-HoldsBoth q = ground arith

recv-Echoed_example :
    let r = recv tiny (some (echo tiny)) busy (some 1) err_ok pool in
    Echoed tiny tiny_laws busy 1 pool r.1.0 r.1.1
recv-Echoed_example = recv-Echoed tiny tiny_laws busy 1 err_ok pool refl refl refl handed-HoldsBoth

abbrev leaving : TcpConnection
leaving = record fresh { state = closing; control_block = some 7 }

served-Tried_example : Tried tiny leaving pool (poll tiny leaving pool)
served-Tried_example = served-Tried tiny leaving pool (poll tiny leaving pool) by_poll refl refl

polled : (poll tiny leaving pool).1.0.state ≡ closed
unfolding poll
polled = refl

abbrev server : TcpServer tiny
server = record {
  listening_connection = fresh;
  connections = λ _. fresh;
  count = 10;
  recv_callback = none;
}

Step-count_example : let n = (on_error tiny (some 3) server pool).0.count in (10 ≤ n) × (n ≤ 10)
Step-count_example = Step-count tiny (fails (some 3) server pool) (omega arith)

-- The fourth connection fails, and a new one is refused.
accept_refused_example :
    let t = on_error tiny (some 3) server pool in
    let r = on_accept tiny true (some 8) err_ok t.0 t.1 in (is_ok r.0 ≡ false) × (r.1.0 ≡ t.0)
accept_refused_example =
    accept_refused tiny refl (after start (fails (some 3) server pool)) true (some 8) err_ok

-- Buffer 1 arrives while buffer 2 waits, and then the peer takes what was sent.
echoed :
    let r = recv tiny (some (echo tiny)) busy (some 1) err_ok pool in
    let a = sent tiny r.1.0 r.1.1 in
    Session tiny tiny_laws busy pool (4 ∷ 1 ∷ 2 ∷ 3 ∷ []) a.1.0 a.1.1
echoed =
    let r = recv tiny (some (echo tiny)) busy (some 1) err_ok pool in
    acked (4 ∷ 1 ∷ 2 ∷ 3 ∷ []) r.1.0 r.1.1
      (heard [] busy pool 1 err_ok opened refl refl handed-HoldsBoth)

Session-stream_example :
    let r = recv tiny (some (echo tiny)) busy (some 1) err_ok pool in
    let a = sent tiny r.1.0 r.1.1 in
    (stream tiny tiny_laws a.1.0 a.1.1 ≡ 9 ∷ 5 ∷ 6 ∷ 4 ∷ 1 ∷ 2 ∷ 3 ∷ 4 ∷ 1 ∷ 2 ∷ 3 ∷ [])
    × (a.1.0.state ≡ closed → a.1.1.sent_bytes ≡ 9 ∷ 5 ∷ 6 ∷ 4 ∷ 1 ∷ 2 ∷ 3 ∷ 4 ∷ 1 ∷ 2 ∷ 3 ∷ [])
Session-stream_example =
    let r = recv tiny (some (echo tiny)) busy (some 1) err_ok pool in
    let a = sent tiny r.1.0 r.1.1 in
    Session-stream tiny tiny_laws tiny_close busy pool (4 ∷ 1 ∷ 2 ∷ 3 ∷ []) a.1.0 a.1.1
      (ground arith) refl busy-Holds echoed
