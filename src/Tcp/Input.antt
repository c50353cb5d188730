-- ===== src/Tcp/Input.antt =====
-- The receiving side of kernel/drivers/net/tcp.c: `tcp_handle` and the handling of a segment in each state.
-- `payload` is the segment, and `behind` is what follows it in memory, which the SACK parser may read.
use stink_os.Base.{
  ℕ, ◌+◌, ◌-◌, ◌*◌, ◌/◌, ◌%◌, ◌^◌, List, [], ◌++◌, none, some, Bool, true, false, not, ◌&&◌, ◌||◌,
  length, take, drop, ltb, leb, ◌==◌, if◌then◌else◌, add32, sub32, u32_mod,
}
use stink_os.Tcp.{
  Tcb, Tcp, TcpState, closed, listen, syn_sent, syn_received, established, fin_wait_1, fin_wait_2,
  close_wait, last_ack, time_wait, tcb, put_tcb, tcb_find, tcb_rx_inline, tcb_ooo_park,
  tcb_ooo_drain, tcp_mss, tcp_buffer_size,
}
use stink_os.Tcp.Options.{tcp_parse_mss, tcp_parse_wscale, tcp_parse_sack_lo}
use stink_os.Tcp.Output.{tcp_retransmit, tcp_drain_tx, after_control}
use stink_os.Tcp.Segment.{
  Header, Sent, read_header, tcp_checksum_ok, tcp_emit, tcp_emit_syn, tcp_emit_rst,
  tcp_emit_sack_ack, has_flag, tcp_fin, tcp_syn, tcp_rst, tcp_ack,
}

-- `ipv4_is_unicast` of kernel/drivers/net/net.h
unfoldable pub ipv4_is_unicast : ℕ → Bool
ipv4_is_unicast addr =
    not ((addr == 0) || (addr == 0xFFFFFFFF))
    && not (addr % 256 == 0x7F)
    && not (addr / 16 % 16 == 0x0E)

-- `(h->data_off >> 4) * 4u`
abbrev pub data_offset : Header → ℕ
data_offset h = h.data_off / 16 % 16 * 4

abbrev pub tcp_apply_wscale : Tcb → Header → ℕ
tcp_apply_wscale t h = h.window * 2 ^ t.peer_wscale

-- The window scale and the MSS of the peer's SYN, where the options lie inside the segment.
unfoldable pub learn_options : Header → List ℕ → Tcb → Tcb
learn_options h payload t =
    let off = data_offset h in
    let opts = take (off - 20) (drop 20 payload) in
    let mss = tcp_parse_mss opts in
    if ltb 20 off && leb off (length payload)
    then record t {
      peer_wscale = tcp_parse_wscale opts;
      peer_mss = if leb 64 mss && leb mss tcp_mss then mss else t.peer_mss;
    }
    else t

-- A reset is accepted in LISTEN, in SYN_SENT if it acknowledges the SYN, else at the next sequence number.
abbrev pub accepts_rst : Header → Tcb → Bool
accepts_rst h t = elim t.state [
  | listen ↦ true
  | syn_sent ↦ has_flag tcp_ack h.flags && (h.ack == t.snd_nxt)
  | _ ↦ h.seq == t.rcv_nxt
]

abbrev pub dropped_tcb : Tcb → Tcb
dropped_tcb t = record t { state = closed; in_use = false }

-- The connection that a SYN makes of a listening slot, before the SYN-ACK.
abbrev pub syn_accepted : ℕ → ℕ → Header → List ℕ → Tcb → Tcb
syn_accepted src_ip initial_seq h payload t =
    let t' = learn_options h payload (record t {
      remote_ip = src_ip;
      remote_port = h.src_port;
      snd_una = initial_seq;
      snd_nxt = initial_seq;
      rcv_nxt = add32 h.seq 1;
    }) in
    record t' { snd_wnd = tcp_apply_wscale t' h; state = syn_received }

-- What a handler gives: the segments it sends, the connection, and `initial_seq`.
unfoldable pub handle_listen : ℕ → ℕ → ℕ → Header → List ℕ → ℕ → Tcb → List Sent × Tcb × ℕ
handle_listen now local_ip src_ip h payload initial_seq t =
    let t' = syn_accepted src_ip initial_seq h payload t in
    if has_flag tcp_syn h.flags && not (has_flag tcp_ack h.flags)
    then (tcp_emit_syn t' (tcp_syn + tcp_ack), after_control now t', add32 initial_seq 64000)
    else (if has_flag tcp_rst h.flags then [] else tcp_emit_rst local_ip src_ip h, t, initial_seq)

unfoldable pub handle_syn_received : ℕ → ℕ → Header → Tcb → List Sent × Tcb
handle_syn_received local_ip src_ip h t =
    if not (has_flag tcp_ack h.flags)
    then ([], t)
    else if h.ack == t.snd_nxt
    then (
      [],
      record t {
        snd_una = h.ack;
        snd_wnd = tcp_apply_wscale t h;
        state = established;
        last_seg_ticks = 0;
        retries = 0;
      },
    )
    else (tcp_emit_rst local_ip src_ip h, t)

unfoldable pub handle_syn_sent : Header → List ℕ → Tcb → List Sent × Tcb
handle_syn_sent h payload t =
    let t1 = learn_options h payload (record t { rcv_nxt = add32 h.seq 1; snd_una = h.ack }) in
    let t2 = record t1 {
      snd_wnd = tcp_apply_wscale t1 h;
      state = established;
      last_seg_ticks = 0;
      retries = 0;
    } in
    if has_flag tcp_syn h.flags && has_flag tcp_ack h.flags && (h.ack == t.snd_nxt)
    then (tcp_emit t2 tcp_ack [], t2)
    else ([], t)

-- `(int)(a - b) > 0`
abbrev pub is_ahead : ℕ → ℕ → Bool
is_ahead a b = ltb 0 (sub32 a b) && ltb (sub32 a b) (2 ^ 31)

-- The SACK scoreboard. The options are not checked to lie inside the segment.
unfoldable pub note_sack : Header → List ℕ → List ℕ → Tcb → Tcb
note_sack h payload behind t =
    let lo = tcp_parse_sack_lo (take (data_offset h - 20) (drop 20 payload ++ behind)) in
    record t { peer_sack_lo = if not (lo == 0) && is_ahead lo t.snd_una then lo else 0 }

-- `payload_dbg`
abbrev pub carried : Header → List ℕ → ℕ
carried h payload =
    if leb (data_offset h) (length payload) then length payload - data_offset h else 0

-- The slow-start threshold after a loss with `flying` bytes in flight.
abbrev pub halved : ℕ → ℕ
halved flying = if ltb (flying / 2) (2 * tcp_mss) then 2 * tcp_mss else flying / 2

abbrev pub fast_recovery : ℕ → Tcb → Tcb
fast_recovery flying t = record t { ssthresh = halved flying; cwnd = halved flying }

-- The detector of duplicate ACKs: at the third one the segment is sent again.
unfoldable pub note_dup_ack : ℕ → ℕ → ℕ → Tcb → List Sent × Tcb
note_dup_ack acked flying payload_len t =
    let dups = if ltb t.dup_acks 255 then t.dup_acks + 1 else t.dup_acks in
    let t' = record t { dup_acks = dups } in
    let t'' = fast_recovery flying t' in
    if (acked == 0) && (payload_len == 0) && ltb 0 flying
    then (if dups == 3 then (tcp_retransmit t'', t'') else ([], t'))
    else ([], if ltb 0 acked then record t { dup_acks = 0 } else t)

-- The growth of the congestion window by an ACK.
abbrev pub grown_cwnd : ℕ → Tcb → ℕ
grown_cwnd acked t =
    let add = tcp_mss * acked % u32_mod / t.cwnd in
    let grown =
      if ltb t.cwnd t.ssthresh
      then add32 t.cwnd acked
      else if ltb 0 t.cwnd
      then add32 t.cwnd (if add == 0 then 1 else add)
      else t.cwnd in
    if ltb tcp_buffer_size grown then tcp_buffer_size else grown

-- The connection after an ACK of `acked` new bytes, before more is sent.
unfoldable pub ack_advanced : Header → ℕ → Tcb → Tcb
ack_advanced h acked t =
    let wnd = tcp_apply_wscale t h in
    let done = h.ack == t.snd_nxt in
    record t {
      snd_una = h.ack;
      tx_head = add32 t.tx_head acked % tcp_buffer_size;
      snd_wnd = wnd;
      persist_armed = if wnd == 0 then t.persist_armed else false;
      cwnd = grown_cwnd acked t;
      last_seg_ticks = if done then 0 else t.last_seg_ticks;
      retries = if done then 0 else t.retries;
    }

unfoldable pub handle_ack : ℕ → Header → List ℕ → List ℕ → Tcb → List Sent × Tcb
handle_ack now h payload behind t =
    let acked = sub32 h.ack t.snd_una in
    let flying = sub32 t.snd_nxt t.snd_una in
    let r = note_dup_ack acked flying (carried h payload) (note_sack h payload behind t) in
    let more = tcp_drain_tx now (ack_advanced h acked r.1) in
    if ltb 0 acked && leb acked flying then (r.0 ++ more.0, more.1) else r

-- The data of a segment: an offset at or past the end counts as 20.
abbrev pub data_start : Header → List ℕ → ℕ
data_start h payload = if leb (length payload) (data_offset h) then 20 else data_offset h

abbrev pub segment_data : Header → List ℕ → List ℕ
segment_data h payload = drop (data_start h payload) payload

-- In-order bytes go to the ring and pull the parked ones; later ones are parked; earlier ones are dropped.
unfoldable pub handle_data : Header → List ℕ → Tcb → List Sent × Tcb
handle_data h bytes t =
    let inline = tcb_ooo_drain (tcb_rx_inline bytes t).1 in
    let parked = tcb_ooo_park h.seq bytes t in
    if length bytes == 0
    then ([], t)
    else if h.seq == t.rcv_nxt
    then (tcp_emit_sack_ack inline, inline)
    else if is_ahead h.seq t.rcv_nxt
    then (tcp_emit_sack_ack parked, parked)
    else ([], t)

abbrev pub is_established : TcpState → Bool
is_established established = true
is_established _ = false

unfoldable pub handle_fin : Header → ℕ → Tcb → List Sent × Tcb
handle_fin h data_len t =
    let t' = record t { rcv_nxt = add32 (add32 h.seq data_len) 1; state = close_wait } in
    if has_flag tcp_fin h.flags && is_established t.state
    then (tcp_emit t' tcp_ack [], t')
    else ([], t)

-- ESTABLISHED and CLOSE_WAIT
unfoldable pub handle_open : ℕ → Header → List ℕ → List ℕ → Tcb → List Sent × Tcb
handle_open now h payload behind t =
    let bytes = segment_data h payload in
    let a = if has_flag tcp_ack h.flags then handle_ack now h payload behind t else ([], t) in
    let b = handle_data h bytes a.1 in
    let c = handle_fin h (length bytes) b.1 in (a.0 ++ (b.0 ++ c.0), c.1)

-- A FIN in FIN_WAIT_1 or FIN_WAIT_2
unfoldable pub enter_time_wait : ℕ → Header → Tcb → List Sent × Tcb
enter_time_wait now h t =
    let t' = record t { rcv_nxt = add32 h.seq 1; state = time_wait; time_wait_ticks = now } in
    if has_flag tcp_fin h.flags then (tcp_emit t' tcp_ack [], t') else ([], t)

abbrev pub acked_fin : Header → Tcb → Tcb
acked_fin h t = if has_flag tcp_ack h.flags then record t { state = fin_wait_2 } else t

-- The states in which a SYN is part of the handshake
abbrev pub is_opening : TcpState → Bool
is_opening listen = true
is_opening syn_sent = true
is_opening syn_received = true
is_opening _ = false

abbrev pub keep_seq : ℕ → List Sent × Tcb → List Sent × Tcb × ℕ
keep_seq initial_seq r = (r.0, r.1, initial_seq)

-- The switch on the state
unfoldable pub handle_state :
    TcpState → ℕ → ℕ → ℕ → Header → List ℕ → List ℕ → ℕ → Tcb → List Sent × Tcb × ℕ
handle_state listen now local src h bytes behind seq t = handle_listen now local src h bytes seq t
handle_state syn_received now local src h bytes behind seq t =
    keep_seq seq (handle_syn_received local src h t)
handle_state syn_sent now local src h bytes behind seq t = keep_seq seq (handle_syn_sent h bytes t)
handle_state established now local src h bytes behind seq t =
    keep_seq seq (handle_open now h bytes behind t)
handle_state close_wait now local src h bytes behind seq t =
    keep_seq seq (handle_open now h bytes behind t)
handle_state fin_wait_1 now local src h bytes behind seq t =
    keep_seq seq (enter_time_wait now h (acked_fin h t))
handle_state fin_wait_2 now local src h bytes behind seq t = keep_seq seq (enter_time_wait now h t)
handle_state last_ack now local src h bytes behind seq t =
    ([], if has_flag tcp_ack h.flags then dropped_tcb t else t, seq)
handle_state _ now local src h bytes behind seq t = ([], t, seq)

-- A segment of a connection: resets, the challenge to a stray SYN, then the switch.
unfoldable pub handle_conn : ℕ → ℕ → ℕ → Header → List ℕ → List ℕ → ℕ → Tcb → List Sent × Tcb × ℕ
handle_conn now local_ip src_ip h payload behind seq t =
    let t' = record t { last_activity_ticks = now; last_keepalive_ticks = 0 } in
    if has_flag tcp_rst h.flags
    then ([], if accepts_rst h t then dropped_tcb t else t, seq)
    else if has_flag tcp_syn h.flags && not (is_opening t.state)
    then (tcp_emit t' tcp_ack [], t', seq)
    else handle_state t.state now local_ip src_ip h payload behind seq t'

unfoldable pub tcp_handle : ℕ → ℕ → List ℕ → List ℕ → ℕ → Tcp → List Sent × Tcp
tcp_handle now local_ip payload behind src_ip s =
    let h = read_header payload in
    if ltb (length payload) 20 || not (ipv4_is_unicast src_ip)
    then ([], s)
    else if not (tcp_checksum_ok src_ip local_ip payload)
    then ([], s)
    else elim (tcb_find src_ip h.src_port h.dst_port s) as (λ _. List Sent × Tcp) [
      | none ↦ (if has_flag tcp_rst h.flags then [] else tcp_emit_rst local_ip src_ip h, s)
      | some i ↦
          let (out, t, seq) =
            handle_conn now local_ip src_ip h payload behind s.initial_seq (tcb s i) in
          (out, record (put_tcb i t s) { initial_seq = seq })
    ]
