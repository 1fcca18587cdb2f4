-- ===== src/Tcp/Api.antt =====
-- What the TCP server asks of lwIP, which is not part of this repository: the raw TCP functions and
-- the packet buffers, over a state that each call takes and returns. A control block and a packet
-- buffer are known by their addresses; none is the null pointer.
use lwip_server.Base.{
  ◌+◌, ◌-◌, ◌<◌, ◌==◌, if◌then◌else◌, ℕ, suc, ◌≡◌, true, false, Option, none, some, List, [], ◌++◌,
}
use lwip_server.Lwip.{Err, is_ok}

-- What `tcp_arg` hands to the callbacks: the listening connection, or an accepted one.
pub data Arg : Type 0 where
  listener : Arg
  client : ℕ → Arg

pub record TcpApi : Type 1 where
  pub World : Type 0
  pub tcp_new : World → Option ℕ × World
  pub tcp_bind : World → ℕ → ℕ → ℕ → Err × World
  pub tcp_listen : World → ℕ → Option ℕ × World
  pub tcp_accept : World → Option ℕ → World
  pub tcp_arg : World → Option ℕ → Arg → World
  pub tcp_prio_min : ℕ
  pub tcp_setprio : World → Option ℕ → ℕ → World
  -- The calls that register `recv`, `error`, `poll` with its interval, and `sent`.
  pub tcp_recv : World → Option ℕ → World
  pub tcp_err : World → Option ℕ → World
  pub tcp_poll : World → Option ℕ → ℕ → World
  pub tcp_sent : World → Option ℕ → World
  pub tcp_close : World → Option ℕ → Err × World
  pub tcp_abort : World → Option ℕ → World
  pub tcp_sndbuf : World → Option ℕ → ℕ
  pub tcp_write : World → Option ℕ → List ℕ → Err × World
  pub tcp_output : World → Option ℕ → World
  pub tcp_recved : World → Option ℕ → ℕ → World
  pub pbuf_ref : World → ℕ → World
  pub pbuf_free : World → Option ℕ → ℕ × World
  pub pbuf_chain : World → ℕ → ℕ → World
  -- The fields of a packet buffer: `tot_len`, the `len` bytes at `payload`, and `next`.
  pub tot_len : World → ℕ → ℕ
  pub payload : World → ℕ → List ℕ
  pub next : World → ℕ → Option ℕ
  -- The number of buffers in a chain.
  pub pbuf_clen : World → Option ℕ → ℕ

abbrev pub ref_next : (api : TcpApi) → Option ℕ → api.World → api.World
ref_next api none w = w
ref_next api (some q) w = api.pbuf_ref w q

-- The documented behaviour of the send queue and of the buffers. `queued` are the bytes that a
-- control block was given so far, `content` the bytes of a chain, and `held` the references to a
-- buffer that the application has taken or was handed, and has not given back.
pub record StreamLaws (api : TcpApi) : Type 0 where
  pub queued : api.World → Option ℕ → List ℕ
  pub content : api.World → Option ℕ → List ℕ
  pub held : api.World → ℕ → ℕ
  pub clen_null : (w : api.World) → api.pbuf_clen w none ≡ 0
  pub clen_next :
      (w : api.World) (p : ℕ) → api.pbuf_clen w (some p) ≡ suc (api.pbuf_clen w (api.next w p))
  pub content_null : (w : api.World) → content w none ≡ []
  pub content_next :
      (w : api.World) (p : ℕ) → content w (some p) ≡ api.payload w p ++ content w (api.next w p)
  pub tot_len_zero : (w : api.World) (p : ℕ) → api.tot_len w p ≡ 0 → content w (some p) ≡ []
  -- A write that succeeds queues a copy of the bytes; one that fails queues nothing.
  pub write_ok :
      (w : api.World) (c : Option ℕ) (bs : List ℕ)
      → is_ok (api.tcp_write w c bs).0 ≡ true
      → queued (api.tcp_write w c bs).1 c ≡ queued w c ++ bs
  pub write_failed :
      (w : api.World) (c : Option ℕ) (bs : List ℕ)
      → is_ok (api.tcp_write w c bs).0 ≡ false
      → queued (api.tcp_write w c bs).1 c ≡ queued w c
  pub write_content :
      (w : api.World) (c p : Option ℕ) (bs : List ℕ)
      → content (api.tcp_write w c bs).1 p ≡ content w p
  pub write_next :
      (w : api.World) (c : Option ℕ) (p : ℕ) (bs : List ℕ)
      → api.next (api.tcp_write w c bs).1 p ≡ api.next w p
  pub write_clen :
      (w : api.World) (c p : Option ℕ) (bs : List ℕ)
      → api.pbuf_clen (api.tcp_write w c bs).1 p ≡ api.pbuf_clen w p
  pub write_held :
      (w : api.World) (c : Option ℕ) (bs : List ℕ) (p : ℕ)
      → held (api.tcp_write w c bs).1 p ≡ held w p
  -- Output moves bytes from the queue to the wire.
  pub output_queued : (w : api.World) (c : Option ℕ) → queued (api.tcp_output w c) c ≡ queued w c
  pub output_content :
      (w : api.World) (c p : Option ℕ) → content (api.tcp_output w c) p ≡ content w p
  pub output_held : (w : api.World) (c : Option ℕ) (p : ℕ) → held (api.tcp_output w c) p ≡ held w p
  -- An acknowledgement only opens the window.
  pub recved_queued :
      (w : api.World) (c : Option ℕ) (n : ℕ) → queued (api.tcp_recved w c n) c ≡ queued w c
  pub recved_content :
      (w : api.World) (c p : Option ℕ) (n : ℕ) → content (api.tcp_recved w c n) p ≡ content w p
  pub recved_held :
      (w : api.World) (c : Option ℕ) (n p : ℕ) → held (api.tcp_recved w c n) p ≡ held w p
  pub ref_queued : (w : api.World) (c : Option ℕ) (p : ℕ) → queued (api.pbuf_ref w p) c ≡ queued w c
  pub ref_content :
      (w : api.World) (p : ℕ) (q : Option ℕ) → content (api.pbuf_ref w p) q ≡ content w q
  pub ref_clen :
      (w : api.World) (p : ℕ) (q : Option ℕ)
      → api.pbuf_clen (api.pbuf_ref w p) q ≡ api.pbuf_clen w q
  pub ref_held :
      (w : api.World) (p q : ℕ)
      → held (api.pbuf_ref w p) q ≡ (if p == q then held w q + 1 else held w q)
  -- To give a reference back leaves alone all that is reached from a buffer that is still held.
  pub free_queued :
      (w : api.World) (c : Option ℕ) (p : ℕ) → queued (api.pbuf_free w (some p)).1 c ≡ queued w c
  pub free_content :
      (w : api.World) (p q : ℕ)
      → 0 < held (api.pbuf_free w (some p)).1 q
      → content (api.pbuf_free w (some p)).1 (some q) ≡ content w (some q)
  pub free_clen :
      (w : api.World) (p q : ℕ)
      → 0 < held (api.pbuf_free w (some p)).1 q
      → api.pbuf_clen (api.pbuf_free w (some p)).1 (some q) ≡ api.pbuf_clen w (some q)
  pub free_held :
      (w : api.World) (p q : ℕ)
      → held (api.pbuf_free w (some p)).1 q ≡ (if p == q then held w q - 1 else held w q)
  -- The link of a chain is a reference of its own, besides the application's.
  pub chain_queued :
      (w : api.World) (c : Option ℕ) (h t : ℕ) → queued (api.pbuf_chain w h t) c ≡ queued w c
  pub chain_content :
      (w : api.World) (h t : ℕ)
      → content (api.pbuf_chain w h t) (some h) ≡ content w (some h) ++ content w (some t)
  pub chain_held : (w : api.World) (h t p : ℕ) → held (api.pbuf_chain w h t) p ≡ held w p
