-- ===== src/Tcp/Output.antt =====
-- The sending side of kernel/drivers/net/tcp.c: retransmission, the transmit ring and the window, and the
-- calls that processes make. `now` is `pit_ticks()`, and `pid` is the caller's pid, 0 with no process.
use stink_os.Base.{
  ℕ, zero, suc, ◌+◌, ◌-◌, ◌%◌, ℤ, pos, negsuc, List, [], ◌∷◌, ◌++◌, Option, none, some, Bool, true,
  false, not, ◌&&◌, ◌||◌, get_or, set, ltb, leb, ◌==◌, if◌then◌else◌, add32, sub32, min,
}
use stink_os.Tcp.{
  Tcb, Tcp, TcpState, closed, listen, syn_sent, established, fin_wait_1, close_wait, last_ack, tcb,
  put_tcb, tx_pending, rx_used, tcb_alloc, tcp_arm_rto, tcp_mss, tcp_buffer_size, tcp_max_conns,
  tcp_persist_initial, ephemeral_base,
}
use stink_os.Tcp.Segment.{Sent, tcp_emit, tcp_emit_syn, tcp_fin, tcp_syn, tcp_psh, tcp_ack}

-- `count` bytes of the transmit ring from the one that is `i` after its head.
unfoldable pub tx_bytes : Tcb → ℕ → ℕ → List ℕ
tx_bytes t i zero = []
tx_bytes t i (suc count) =
    get_or t.tx_buf ((t.tx_head + i) % tcp_buffer_size) 0 ∷ tx_bytes t (i + 1) count

-- The bytes in flight that a retransmission sends, up to the peer's lowest SACK edge.
unfoldable pub retransmit_chunk : Tcb → ℕ
retransmit_chunk t =
    let in_flight = sub32 t.snd_nxt t.snd_una in
    let chunk = if ltb tcp_mss in_flight then tcp_mss else in_flight in
    let gap = sub32 t.peer_sack_lo t.snd_una in
    if not (t.peer_sack_lo == 0) && (ltb 0 gap && ltb gap chunk) then gap else chunk

-- `snd_nxt` stands at `snd_una` while the segment is emitted.
unfoldable pub tcp_retransmit : Tcb → List Sent
unfolding tx_bytes retransmit_chunk tcp_emit tcp_emit_syn
tcp_retransmit t =
    let back = record t { snd_nxt = t.snd_una } in
    let ring = tcp_emit back (tcp_ack + tcp_psh) (tx_bytes t 0 (retransmit_chunk t)) in
    elim t.state [
      | syn_sent ↦ tcp_emit_syn back tcp_syn
      | fin_wait_1 ↦ tcp_emit back (tcp_fin + tcp_ack) []
      | last_ack ↦ tcp_emit back (tcp_fin + tcp_ack) []
      | established ↦ ring
      | close_wait ↦ ring
      | _ ↦ []
    ]

abbrev pub can_send : TcpState → Bool
can_send established = true
can_send close_wait = true
can_send _ = false

abbrev pub in_flight : Tcb → ℕ
in_flight t = sub32 t.snd_nxt t.snd_una

-- What one round of `tcp_drain_tx` sends: 0 where the round returns.
unfoldable pub drain_chunk : Tcb → ℕ
drain_chunk t =
    let flying = in_flight t in
    let cap = if t.peer_mss == 0 then tcp_mss else t.peer_mss in
    let budget = if ltb flying t.cwnd then t.cwnd - flying else 0 in
    let room = t.snd_wnd - flying in
    if (budget == 0) || leb t.snd_wnd flying
    then 0
    else min (min (tx_pending t) cap) (if ltb room budget then room else budget)

-- A window of 0 with nothing in flight arms the persist timer.
abbrev pub is_shut : Tcb → Bool
is_shut t = (t.snd_wnd == 0) && (in_flight t == 0)

unfoldable pub arm_persist : ℕ → Tcb → Tcb
arm_persist now t = if t.persist_armed then t else record t {
  persist_armed = true;
  persist_last_tick = now;
  persist_interval = tcp_persist_initial;
}

-- The connection after a round that sends `chunk` bytes.
unfoldable pub drained : ℕ → ℕ → Tcb → Tcb
unfolding tcp_arm_rto
drained now chunk t =
    let t' = record t { snd_nxt = add32 t.snd_nxt chunk } in
    if t'.last_seg_ticks == 0 then tcp_arm_rto now t' else t'

-- `for (;;)`; `none` means that the fuel ran out.
unfoldable pub drain_tx_loop : ℕ → ℕ → Tcb → Option (List Sent × Tcb)
drain_tx_loop zero now t = none
drain_tx_loop (suc fuel) now t =
    let chunk = drain_chunk t in
    let rest = drain_tx_loop fuel now (drained now chunk t) in
    if tx_pending t == 0
    then some ([], t)
    else if is_shut t
    then some ([], arm_persist now t)
    else if chunk == 0
    then some ([], t)
    else elim rest as (λ _. Option (List Sent × Tcb)) [
      | none ↦ none
      | some (out, t') ↦ some (tcp_emit t (tcp_ack + tcp_psh) (tx_bytes t 0 chunk) ++ out, t')
    ]

-- Every round but the last sends a byte of the congestion window.
unfoldable pub tcp_drain_tx : ℕ → Tcb → List Sent × Tcb
tcp_drain_tx now t =
    if can_send t.state
    then elim (drain_tx_loop (t.cwnd + 1) now t) [ none ↦ ([], t) | some r ↦ r ]
    else ([], t)

-- A handle that names a connection in use.
unfoldable pub get_conn : ℤ → Tcp → Option ℕ
get_conn (negsuc _) s = none
get_conn (pos h) s = if ltb h tcp_max_conns && (tcb s h).in_use then some h else none

-- `next_ephemeral++`, an `unsigned short` that starts again where it wraps to 0.
abbrev pub next_port : ℕ → ℕ
next_port p = if (p + 1) % 65536 == 0 then ephemeral_base else (p + 1) % 65536

-- The connection that `tcp_connect` opens, before its SYN is sent.
abbrev pub opening : ℕ → ℕ → ℕ → ℕ → Tcp → Tcb → Tcb
opening local_ip pid dst_ip dst_port s t = record t {
  local_ip = local_ip;
  remote_ip = dst_ip;
  local_port = s.next_ephemeral;
  remote_port = dst_port;
  snd_una = s.initial_seq;
  snd_nxt = s.initial_seq;
  rcv_nxt = 0;
  state = syn_sent;
  owner_pid = pid;
}

-- After a SYN or a FIN, which takes one sequence number.
abbrev pub after_control : ℕ → Tcb → Tcb
after_control now t = tcp_arm_rto now (record t { snd_nxt = add32 t.snd_nxt 1 })

unfoldable pub tcp_connect : ℕ → ℕ → ℕ → ℕ → ℕ → Tcp → Option ℕ × List Sent × Tcp
unfolding tcb_alloc tcp_arm_rto tcp_emit_syn
tcp_connect now local_ip pid dst_ip dst_port s =
    let (idx, s1) = tcb_alloc s in
    elim idx [
      | none ↦ (none, [], s1)
      | some i ↦
          let t = opening local_ip pid dst_ip dst_port s1 (tcb s1 i) in
          let s2 = record s1 {
            next_ephemeral = next_port s1.next_ephemeral;
            initial_seq = add32 s1.initial_seq 64000;
          } in
          (some i, tcp_emit_syn t tcp_syn, put_tcb i (after_control now t) s2)
    ]

unfoldable pub tcp_listen : ℕ → ℕ → ℕ → Tcp → Option ℕ × Tcp
unfolding tcb_alloc
tcp_listen local_ip pid local_port s =
    let (idx, s1) = tcb_alloc s in
    elim idx [
      | none ↦ (none, s1)
      | some i ↦ (
        some i,
        put_tcb i
            (record (tcb s1 i) {
              local_ip = local_ip;
              remote_ip = 0;
              local_port = local_port;
              remote_port = 0;
              state = listen;
              owner_pid = pid;
            })
            s1,
      )
    ]

-- The loop of `tcp_send`: how many bytes it queued, and the ring.
unfoldable pub tx_fill : List ℕ → Tcb → ℕ × Tcb
tx_fill [] t = (0, t)
tx_fill (b ∷ bytes) t =
    let next = (t.tx_tail + 1) % tcp_buffer_size in
    let rest = tx_fill bytes (record t { tx_buf = set t.tx_buf t.tx_tail b; tx_tail = next }) in
    if next == t.tx_head then (0, t) else (rest.0 + 1, rest.1)

-- `none` is -1.
unfoldable pub tcp_send : ℕ → ℤ → List ℕ → Tcp → Option ℕ × List Sent × Tcp
unfolding get_conn tx_fill tcp_drain_tx
tcp_send now h bytes s = elim (get_conn h s) [
  | none ↦ (none, [], s)
  | some i ↦
      let (put, t) = tx_fill bytes (tcb s i) in
      let (out, t') = tcp_drain_tx now t in
      if can_send (tcb s i).state then (some put, out, put_tcb i t' s) else (none, [], s)
]

-- The loop of `tcp_recv`, at most `max` bytes: the bytes, and the ring.
unfoldable pub rx_drain : ℕ → Tcb → List ℕ × Tcb
rx_drain zero t = ([], t)
rx_drain (suc max) t =
    let rest = rx_drain max (record t { rx_head = (t.rx_head + 1) % tcp_buffer_size }) in
    if t.rx_head == t.rx_tail then ([], t) else (get_or t.rx_buf t.rx_head 0 ∷ rest.0, rest.1)

-- `none` is -1; the bytes are those copied to the caller.
unfoldable pub tcp_recv : ℤ → ℕ → Tcp → Option (List ℕ) × Tcp
unfolding get_conn rx_drain
tcp_recv h max s = elim (get_conn h s) [
  | none ↦ (none, s)
  | some i ↦ let (bytes, t) = rx_drain max (tcb s i) in (some bytes, put_tcb i t s)
]

-- What `tcp_close` makes of a connection in use.
unfoldable pub close_tcb : ℕ → Tcb → List Sent × Tcb
unfolding tcp_emit tcp_arm_rto
close_tcb now t = elim t.state [
  | established ↦
      (tcp_emit t (tcp_fin + tcp_ack) [], after_control now (record t { state = fin_wait_1 }))
  | close_wait ↦
      (tcp_emit t (tcp_fin + tcp_ack) [], after_control now (record t { state = last_ack }))
  | _ ↦ ([], record t { state = closed; in_use = false })
]

unfoldable pub tcp_close : ℕ → ℤ → Tcp → List Sent × Tcp
unfolding get_conn close_tcb
tcp_close now h s = elim (get_conn h s) [
  | none ↦ ([], s)
  | some i ↦ let (out, t) = close_tcb now (tcb s i) in (out, put_tcb i t s)
]

unfoldable pub tcp_get_state : ℤ → Tcp → TcpState
unfolding get_conn
tcp_get_state h s = elim (get_conn h s) [ none ↦ closed | some i ↦ (tcb s i).state ]

-- The loop of `tcp_close_pid` with `left` slots to go from slot `i` on.
unfoldable pub close_owned : ℕ → ℕ → ℕ → ℕ → Tcp → List Sent × Tcp
unfolding tcp_close
close_owned now pid zero i s = ([], s)
close_owned now pid (suc left) i s =
    let mine = (tcb s i).in_use && ((tcb s i).owner_pid == pid) in
    let shut = if mine then tcp_close now (pos i) s else ([], s) in
    let rest = close_owned now pid left (i + 1) shut.1 in (shut.0 ++ rest.0, rest.1)

-- A pid of 0 or below closes nothing.
unfoldable pub tcp_close_pid : ℕ → ℤ → Tcp → List Sent × Tcp
unfolding close_owned
tcp_close_pid now (negsuc _) s = ([], s)
tcp_close_pid now (pos pid) s = if pid == 0 then ([], s) else close_owned now pid tcp_max_conns 0 s

-- `struct tcp_info`
pub record Info : Type 0 where
  pub is_used : Bool
  pub status : TcpState
  pub here_ip : ℕ
  pub peer_ip : ℕ
  pub here_port : ℕ
  pub peer_port : ℕ
  pub rx_pending : ℕ
  pub tx_pending_info : ℕ

unfoldable pub tcp_get_info : ℤ → Tcp → Option Info
tcp_get_info (negsuc _) s = none
tcp_get_info (pos idx) s =
    let t = tcb s idx in
    if leb tcp_max_conns idx
    then none
    else some (record {
      is_used = t.in_use;
      status = t.state;
      here_ip = t.local_ip;
      peer_ip = t.remote_ip;
      here_port = t.local_port;
      peer_port = t.remote_port;
      rx_pending = rx_used t;
      tx_pending_info = add32 (tx_pending t) (in_flight t);
    })
