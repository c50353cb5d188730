-- ===== src/Tcp/Tick.antt =====
-- The timer of kernel/drivers/net/tcp.c: `tcp_tick` over every connection in use. `now` is `pit_ticks()`.
use stink_os.Base.{
  ℕ, ◌+◌, ◌*◌, ◌%◌, List, [], ◌∷◌, ◌++◌, Bool, true, false, not, ◌&&◌, ◌||◌, get_or, leb, ltb, ◌==◌,
  if◌then◌else◌, sub32, min, u32_mod,
}
use stink_os.Tcp.{
  Tcb, Tcp, TcpState, time_wait, tx_pending, tcp_mss, tcp_keepalive_idle, tcp_keepalive_interval,
  tcp_2msl_ticks, tcp_persist_max, tcp_max_retries, tcp_rto_max,
}
use stink_os.Tcp.Input.{halved, dropped_tcb, is_established}
use stink_os.Tcp.Output.{tcp_retransmit, in_flight}
use stink_os.Tcp.Segment.{Sent, tcp_emit, tcp_ack}

-- A probe with the sequence number before the oldest one that is unacknowledged.
unfoldable pub tcp_send_keepalive : Tcb → List Sent
unfolding tcp_emit
tcp_send_keepalive t = tcp_emit (record t { snd_nxt = sub32 t.snd_una 1 }) tcp_ack []

-- An idle connection is due for a probe.
abbrev pub is_idle : ℕ → Tcb → Bool
is_idle now t =
    is_established t.state
    && not (t.last_activity_ticks == 0)
    && leb tcp_keepalive_idle (sub32 now t.last_activity_ticks)
    && ((t.last_keepalive_ticks == 0)
        || leb tcp_keepalive_interval (sub32 now t.last_keepalive_ticks))

unfoldable pub tick_keepalive : ℕ → Tcb → List Sent × Tcb
unfolding tcp_send_keepalive
tick_keepalive now t =
    if is_idle now t
    then (tcp_send_keepalive t, record t { last_keepalive_ticks = now })
    else ([], t)

abbrev pub is_time_wait : TcpState → Bool
is_time_wait time_wait = true
is_time_wait _ = false

abbrev pub has_expired : ℕ → Tcb → Bool
has_expired now t = is_time_wait t.state && leb tcp_2msl_ticks (sub32 now t.time_wait_ticks)

abbrev pub is_persist_due : ℕ → Tcb → Bool
is_persist_due now t =
    t.persist_armed
    && ltb 0 (tx_pending t)
    && leb t.persist_interval (sub32 now t.persist_last_tick)

-- `x *= 2`, no more than `limit`
abbrev pub doubled : ℕ → ℕ → ℕ
doubled limit x = min (x * 2 % u32_mod) limit

unfoldable pub tick_persist : ℕ → Tcb → List Sent × Tcb
unfolding tcp_emit
tick_persist now t =
    if is_persist_due now t
    then (
      tcp_emit t tcp_ack (get_or t.tx_buf t.tx_head 0 ∷ []),
      record t {
        persist_last_tick = now;
        persist_interval = doubled tcp_persist_max t.persist_interval;
      },
    )
    else ([], t)

-- The connection after a timeout: one more retry, a longer timeout, and the window collapsed.
abbrev pub backed_off : ℕ → Tcb → Tcb
backed_off now t = record t {
  ssthresh = halved (in_flight t);
  cwnd = tcp_mss;
  retries = t.retries + 1;
  rto_ticks = doubled tcp_rto_max t.rto_ticks;
  last_seg_ticks = now;
}

unfoldable pub tick_retransmit : ℕ → Tcb → List Sent × Tcb
unfolding tcp_retransmit
tick_retransmit now t =
    if t.last_seg_ticks == 0
    then ([], t)
    else if t.snd_una == t.snd_nxt
    then ([], record t { last_seg_ticks = 0 })
    else if ltb (sub32 now t.last_seg_ticks) t.rto_ticks
    then ([], t)
    else if leb tcp_max_retries t.retries
    then ([], dropped_tcb t)
    else (
      tcp_retransmit (record t { ssthresh = halved (in_flight t); cwnd = tcp_mss }),
      backed_off now t,
    )

unfoldable pub tick_tcb : ℕ → Tcb → List Sent × Tcb
unfolding tick_keepalive tick_persist tick_retransmit
tick_tcb now t =
    let a = tick_keepalive now t in
    let b = tick_persist now a.1 in
    let c = tick_retransmit now b.1 in
    if not t.in_use
    then ([], t)
    else if has_expired now a.1
    then (a.0, dropped_tcb a.1)
    else (a.0 ++ (b.0 ++ c.0), c.1)

-- The loop over the connections.
unfoldable pub tick_conns : ℕ → List Tcb → List Sent × List Tcb
unfolding tick_tcb
tick_conns now [] = ([], [])
tick_conns now (t ∷ l) =
    let (out, t') = tick_tcb now t in let (more, l') = tick_conns now l in (out ++ more, t' ∷ l')

unfoldable pub tcp_tick : ℕ → Tcp → List Sent × Tcp
unfolding tick_conns
tcp_tick now s = let (out, l) = tick_conns now s.conns in (out, record s { conns = l })
