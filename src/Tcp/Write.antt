-- ===== src/Tcp/Write.antt =====
-- `TcpServer::writeToTcp` and `TcpServer::write` as a whole (src/network/TcpServer.cpp).
use lwip_server.Base.{
  ℕ, zero, suc, ◌+◌, ◌≤◌, ◌≡◌, refl, ap, ap₂, ◌∙◌, Option, none, some, List, [], ◌++◌, arith, inl,
  inr, Bool-cases, ◌==◌,
}
use mathlib.Core.List.{append_assoc, append-nil}
use lwip_server.Tcp.Api.{TcpApi, StreamLaws}
use lwip_server.Tcp.Connection.{
  TcpConnection, write_head, drain, write_to_tcp, append, write, is_established, established,
}
use lwip_server.Tcp.Stream.{Alike, Alike-trans, own, stream, Holds, Kept}
use lwip_server.Tcp.Drain.{write_head-Turn, drain-Kept}

module _ (api : TcpApi) (laws : StreamLaws api) where
  open api use {World}

  -- Two numbers of rounds, neither below the length of the chain.
  enough :
      (m n : ℕ) (c : TcpConnection) (w : World)
      → Holds api laws c.write_buffer w
      → api.pbuf_clen w c.write_buffer ≤ m
      → api.pbuf_clen w c.write_buffer ≤ n
      → drain api (suc m) c w ≡ drain api (suc n) c w
  unfolding drain
  enough zero n c w h hm hn = elim (Bool-cases (write_head api c.write_buffer c w).0) [
    | inl more ↦
        let short = (write_head-Turn api laws c.write_buffer c w refl h).shorter more in
        absurd (omega arith)
    | inr stop ↦ rw stop refl
  ]
  enough (suc m) zero c w h hm hn = elim (Bool-cases (write_head api c.write_buffer c w).0) [
    | inl more ↦
        let short = (write_head-Turn api laws c.write_buffer c w refl h).shorter more in
        absurd (omega arith)
    | inr stop ↦ rw stop refl
  ]
  enough (suc m) (suc n) c w h hm hn =
      let t = write_head-Turn api laws c.write_buffer c w refl h in
      let r = (write_head api c.write_buffer c w).1 in
      elim (Bool-cases (write_head api c.write_buffer c w).0) [
        | inl more ↦
            let short = t.shorter more in
            rw more (enough m n r.0 r.1 t.keeps.holds (omega arith) (omega arith))
        | inr stop ↦ rw stop refl
      ]

  -- The loop of `writeToTcp` ends, where the connection holds its write buffer: however much longer
  -- it were let run, one turn more than the chain has buffers gives its result.
  pub drain_ends :
      (n : ℕ) (c : TcpConnection) (w : World)
      → Holds api laws c.write_buffer w
      → api.pbuf_clen w c.write_buffer ≤ n
      → drain api (suc n) c w ≡ drain api (suc (api.pbuf_clen w c.write_buffer)) c w
  drain_ends n c w h le = enough n (api.pbuf_clen w c.write_buffer) c w h le (omega arith)

  -- `writeToTcp`, on a connection that holds its write buffer, loses, repeats and reorders no byte:
  -- those that lwIP has queued, followed by those that are left in the write buffer, are what they
  -- were. The connection holds the buffer that is left, no other reference is taken or given back
  -- but that to the buffers sent, and nothing else of the connection changes.
  pub write_to_tcp-Kept :
      (c : TcpConnection) (w : World)
      → Holds api laws c.write_buffer w
      → let r = write_to_tcp api c w in Kept api laws c w r.0 r.1
  unfolding write_to_tcp
  write_to_tcp-Kept c w h =
      let k = drain-Kept api laws (suc (api.pbuf_clen w c.write_buffer)) c w h in
      let r = drain api (suc (api.pbuf_clen w c.write_buffer)) c w in
      let same = λ (q : ℕ). laws.output_held r.1 r.0.control_block q in
      record {
        alike = k.alike;
        stream_kept =
            ap₂ (◌++◌) (laws.output_queued _ _) (laws.output_content _ _ _) ∙ k.stream_kept;
        holds = λ q. omega (arith, k.holds q, same q);
        balanced = λ q. omega (arith, k.balanced q, same q);
      }

  -- As `Kept`, with more bytes at the end of the stream.
  pub record Adds (bytes : List ℕ) (c : TcpConnection) (w : World) (d : TcpConnection) (v : World)
      : Type 0 where
    pub alike : Alike c d
    pub stream_added : stream api laws d v ≡ stream api laws c w ++ bytes
    pub holds : Holds api laws d.write_buffer v
    pub balanced :
        (q : ℕ) → laws.held v q + own c.write_buffer q ≡ laws.held w q + own d.write_buffer q

  append-Adds :
      (b : Option ℕ) (p : ℕ) (c : TcpConnection) (w : World)
      → c.write_buffer ≡ b
      → Holds api laws c.write_buffer w
      → let r = append api b p c w in Adds (laws.content w (some p)) c w r.0 r.1
  unfolding append
  append-Adds none p c w e h = record {
    alike = (refl, refl, refl, refl, refl, refl);
    stream_added = rw (e, laws.ref_queued, laws.ref_content, laws.content_null, append-nil) refl;
    holds = λ q. ground (arith, laws.ref_held w p q);
    balanced = λ q. ground (arith, laws.ref_held w p q, ap (λ b. own b q) e);
  }
  append-Adds (some x) p c w e h = record {
    alike = (refl, refl, refl, refl, refl, refl);
    stream_added = rw (e, laws.chain_queued, laws.chain_content, append_assoc) refl;
    holds = λ q. omega (arith, h q, laws.chain_held w x p q);
    balanced = λ q. omega (arith, laws.chain_held w x p q);
  }

  -- `write` on an established connection that holds its write buffer adds the bytes of the given
  -- buffer at the end of the stream, and takes a reference to it exactly if it becomes the head of
  -- the write buffer. Nothing but the write buffer changes.
  pub write-Adds :
      (c : TcpConnection) (p : ℕ) (w : World)
      → c.state ≡ established
      → Holds api laws c.write_buffer w
      → let r = write api c (some p) w in Adds (laws.content w (some p)) c w r.0 r.1
  unfolding write
  write-Adds c p w e h = rw (ap is_established e) (elim (Bool-cases (api.tot_len w p == 0)) [
    | inl empty ↦
        let none_added : laws.content w (some p) ≡ [] = laws.tot_len_zero w p (ground arith) in
        rw empty (record {
          alike = (refl, refl, refl, refl, refl, refl);
          stream_added = rw (none_added, append-nil) refl;
          holds = h;
          balanced = λ q. refl;
        })
    | inr more ↦ rw more (
        let a = append-Adds c.write_buffer p c w refl h in
        let r = append api c.write_buffer p c w in
        let k = write_to_tcp-Kept r.0 r.1 a.holds in
        record {
          alike = Alike-trans c r.0 (write_to_tcp api r.0 r.1).0 a.alike k.alike;
          stream_added = k.stream_kept ∙ a.stream_added;
          holds = k.holds;
          balanced = λ q. omega (arith, k.balanced q, a.balanced q);
        })
  ])
