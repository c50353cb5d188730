-- ===== src/Tcp/Resend.antt =====
-- What `tcp_drain_tx` of kernel/drivers/net/tcp.c sends when the window is larger than what is queued: the
-- head of the transmit ring moves only with an ACK, so that the same bytes leave again.
use stink_os.Base.{
  ℕ, zero, suc, ◌+◌, ◌-◌, ◌*◌, ◌%◌, ◌≤◌, ◌<◌, ◌≡◌, ◌∙◌, refl, sym, ap, ap₂, subst, List, ◌∷◌, ◌++◌,
  some, true, false, if◌then◌else◌, ◌==◌, arith, add32, get_or,
}
use stink_os.Tcp.{Tcb, tx_pending, tcp_mss, tcp_buffer_size}
use stink_os.Tcp.Flow.{
  IsSender, effective_mss, in_flight-drained, drained-Same, drained-IsSender, drain_tx_loop-Flow,
  drain_tx_loop-suc, tcp_drain_tx_lem,
}
use stink_os.Tcp.Output.{
  in_flight, drain_chunk, drained, drain_tx_loop, tcp_drain_tx, is_shut, tx_bytes, can_send,
}
use stink_os.Tcp.Segment.{Sent, tcp_emit, tcp_ack, tcp_psh}

-- A round leaves the transmit ring as it is.
drained-buf : (now chunk : ℕ) (t : Tcb) → (drained now chunk t).tx_buf ≡ t.tx_buf
unfolding drained
drained-buf now chunk t = ground arith

drained-head : (now chunk : ℕ) (t : Tcb) → (drained now chunk t).tx_head ≡ t.tx_head
unfolding drained
drained-head now chunk t = ground arith

drained-tail : (now chunk : ℕ) (t : Tcb) → (drained now chunk t).tx_tail ≡ t.tx_tail
unfolding drained
drained-tail now chunk t = ground arith

drained-nxt : (now chunk : ℕ) (t : Tcb) → (drained now chunk t).snd_nxt ≡ add32 t.snd_nxt chunk
unfolding drained
drained-nxt now chunk t = ground arith

tx_bytes-drained :
    (now chunk i n : ℕ) (t : Tcb) → tx_bytes (drained now chunk t) i n ≡ tx_bytes t i n
unfolding tx_bytes
tx_bytes-drained now chunk i zero t = refl
tx_bytes-drained now chunk i (suc n) t =
    ap₂
      (λ (b : List ℕ) (h : ℕ).
        get_or b ((h + i) % tcp_buffer_size) 0 ∷ tx_bytes (drained now chunk t) (i + 1) n)
      (drained-buf now chunk t) (drained-head now chunk t)
    ∙ ap (λ l. get_or t.tx_buf ((t.tx_head + i) % tcp_buffer_size) 0 ∷ l)
        (tx_bytes-drained now chunk (i + 1) n t)

-- A round with room for all of the `n` bytes that are queued sends them.
drain_chunk_all :
    (n : ℕ) (t : Tcb)
    → tx_pending t ≡ n
    → 0 < n
    → n ≤ effective_mss t
    → in_flight t + n ≤ t.cwnd
    → in_flight t + n ≤ t.snd_wnd
    → (drain_chunk t ≡ n)
      × ((tx_pending t == 0) ≡ false)
      × (is_shut t ≡ false)
      × ((drain_chunk t == 0) ≡ false)
unfolding drain_chunk
drain_chunk_all n t e lt mss cwnd wnd = ground arith

-- The first two segments of the drain have the same `n` bytes; the second one is that of a connection `u`
-- whose next sequence number is behind the first.
abbrev pub Resent : ℕ → ℕ → Tcb → Type 0
Resent now n t =
    (u : Tcb) × (more : List Sent) × (u.snd_nxt ≡ add32 t.snd_nxt n)
    × ((tcp_drain_tx now t).0
        ≡ tcp_emit t (tcp_ack + tcp_psh) (tx_bytes t 0 n)
          ++ (tcp_emit u (tcp_ack + tcp_psh) (tx_bytes t 0 n) ++ more))

-- A process that queues `n` bytes of at most one segment, with nothing in flight and both windows twice as
-- large, has them sent twice or more: the second segment carries the same bytes under the sequence numbers
-- that follow the first.
pub tcp_drain_tx-resends :
    (now n : ℕ) (t : Tcb)
    → IsSender t
    → can_send t.state ≡ true
    → tx_pending t ≡ n
    → 0 < n
    → n ≤ effective_mss t
    → in_flight t ≡ 0
    → 2 * n ≤ t.cwnd
    → 2 * n ≤ t.snd_wnd
    → Resent now n t
tcp_drain_tx-resends now n t v open_state queued some_n mss idle cwnd wnd =
    let (c1, p1, q1, r1) = drain_chunk_all n t queued some_n mss (omega arith) (omega arith) in
    let u = drained now (drain_chunk t) t in
    let su = drained-Same now (drain_chunk t) t in
    let fu : in_flight u ≡ n =
      in_flight-drained now (drain_chunk t) t v (omega (arith, v.cwnd_fits, c1))
      ∙ omega (arith, c1, idle) in
    let vu = drained-IsSender now (drain_chunk t) t v in
    let queued_u : tx_pending u ≡ n =
      ap₂ (λ (tl hd : ℕ). (tl + tcp_buffer_size - hd) % tcp_buffer_size)
        (drained-tail now (drain_chunk t) t) (drained-head now (drain_chunk t) t)
      ∙ queued in
    let mss_u : n ≤ effective_mss u =
      subst (λ m. n ≤ (if m == 0 then tcp_mss else m)) (sym su.mss) mss in
    let (c2, p2, q2, r2) =
      drain_chunk_all n u queued_u some_n mss_u (omega (arith, fu, su.cwnd))
        (omega (arith, fu, su.wnd)) in
    let w = drained now (drain_chunk u) u in
    let sw = drained-Same now (drain_chunk u) u in
    let fw : in_flight w ≡ n + n =
      in_flight-drained now (drain_chunk u) u vu (omega (arith, v.cwnd_fits, c2, fu))
      ∙ omega (arith, c2, fu) in
    let (out, t', run, f) =
      drain_tx_loop-Flow (t.cwnd - 1) now w (drained-IsSender now (drain_chunk u) u vu)
        (omega (arith, fw, sw.cwnd, su.cwnd, some_n, cwnd)) in
    let loop_u = drain_tx_loop-suc (t.cwnd - 1) now u (out, t') p2 q2 r2 run in
    let fuel : suc (suc (t.cwnd - 1)) ≡ t.cwnd + 1 = omega (arith, some_n, cwnd) in
    let loop_t =
      drain_tx_loop-suc (suc (t.cwnd - 1)) now t
        (tcp_emit u (tcp_ack + tcp_psh) (tx_bytes u 0 (drain_chunk u)) ++ out, t') p1 q1 r1
        loop_u in
    let whole =
      tcp_drain_tx_lem now t
        (
          tcp_emit t (tcp_ack + tcp_psh) (tx_bytes t 0 (drain_chunk t))
              ++ (tcp_emit u (tcp_ack + tcp_psh) (tx_bytes u 0 (drain_chunk u)) ++ out),
          t',
        )
        open_state
        (subst
          (λ k.
            drain_tx_loop k now t
            ≡ some (
              tcp_emit t (tcp_ack + tcp_psh) (tx_bytes t 0 (drain_chunk t))
                  ++ (tcp_emit u (tcp_ack + tcp_psh) (tx_bytes u 0 (drain_chunk u)) ++ out),
              t',
            ))
          fuel loop_t) in
    (
      u,
      out,
      drained-nxt now (drain_chunk t) t ∙ ap (add32 t.snd_nxt) c1,
      ap (λ r. r.0) whole
          ∙ ap₂
              (λ (a b : List ℕ).
                tcp_emit t (tcp_ack + tcp_psh) a ++ (tcp_emit u (tcp_ack + tcp_psh) b ++ out))
              (ap (tx_bytes t 0) c1)
              (ap (tx_bytes u 0) c2 ∙ tx_bytes-drained now (drain_chunk t) 0 n t),
    )
