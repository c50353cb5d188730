-- ===== src/Tcp.antt =====
-- The connections of kernel/drivers/net/tcp.c: the pool of TCBs, the receive and transmit rings and the
-- queue of segments that came out of order. A C array is a list; the ring slots of `rx_buf` and `tx_buf`
-- are read and written at their indices. Sequence numbers wrap at 2^32.
pub mod Segment
pub mod Output
pub mod Options
pub mod Input
pub mod Tick
pub mod Checksum
pub mod Receive
pub mod Reorder
pub mod Swapped
pub mod Flow
pub mod Resend
pub mod Steady
pub mod States
pub mod Payload
pub mod Parse
pub mod Timeout
pub mod Silence
pub mod Pool
pub mod Syn
pub mod Accept
pub mod Handshake
mod Tests
use stink_os.Base.{
  ℕ, zero, suc, ◌+◌, ◌-◌, ◌*◌, ◌/◌, ◌%◌, ◌^◌, List, [], ◌∷◌, ◌++◌, Option, none, some, Bool, true,
  false, not, ◌&&◌, ◌||◌, length, get_or, set, replicate, ltb, leb, ◌==◌, if◌then◌else◌, add32,
  sub32,
}

-- `TCP_MAX_CONNS`, `TCP_BUFFER_SIZE`, `TCP_MSS`, `EPHEMERAL_BASE`
abbrev pub tcp_max_conns : ℕ
tcp_max_conns = 8

abbrev pub tcp_buffer_size : ℕ
tcp_buffer_size = 4096

abbrev pub tcp_mss : ℕ
tcp_mss = 1460

abbrev pub ephemeral_base : ℕ
ephemeral_base = 49152

-- The times, in ticks of 10 ms, and the bound on retries.
abbrev pub tcp_rto_initial : ℕ
tcp_rto_initial = 100

abbrev pub tcp_rto_max : ℕ
tcp_rto_max = 6000

abbrev pub tcp_max_retries : ℕ
tcp_max_retries = 5

abbrev pub tcp_keepalive_idle : ℕ
tcp_keepalive_idle = 7200

abbrev pub tcp_keepalive_interval : ℕ
tcp_keepalive_interval = 3000

abbrev pub tcp_persist_initial : ℕ
tcp_persist_initial = 100

abbrev pub tcp_persist_max : ℕ
tcp_persist_max = 6000

abbrev pub tcp_2msl_ticks : ℕ
tcp_2msl_ticks = 6000

-- `enum tcp_state`
pub data TcpState : Type 0 where
  closed listen syn_sent syn_received established fin_wait_1 fin_wait_2 close_wait : TcpState
  closing last_ack time_wait : TcpState

-- A slot of the out-of-order queue; `len` is the length of `buf`.
pub record Ooo : Type 0 where
  pub used : Bool
  pub seq : ℕ
  pub buf : List ℕ

-- `struct tcb`. `owner_pid` is a pid, which is never negative here.
pub record Tcb : Type 0 where
  pub state : TcpState
  pub local_ip : ℕ
  pub remote_ip : ℕ
  pub local_port : ℕ
  pub remote_port : ℕ
  pub snd_una : ℕ
  pub snd_nxt : ℕ
  pub snd_wnd : ℕ
  pub rcv_nxt : ℕ
  pub rx_buf : List ℕ
  pub rx_head : ℕ
  pub rx_tail : ℕ
  pub tx_buf : List ℕ
  pub tx_head : ℕ
  pub tx_tail : ℕ
  pub last_seg_ticks : ℕ
  pub rto_ticks : ℕ
  pub retries : ℕ
  pub cwnd : ℕ
  pub ssthresh : ℕ
  pub peer_wscale : ℕ
  pub peer_mss : ℕ
  pub last_activity_ticks : ℕ
  pub last_keepalive_ticks : ℕ
  pub ooo : List Ooo
  pub time_wait_ticks : ℕ
  pub owner_pid : ℕ
  pub persist_armed : Bool
  pub persist_last_tick : ℕ
  pub persist_interval : ℕ
  pub peer_sack_lo : ℕ
  pub dup_acks : ℕ
  pub in_use : Bool

-- `conns`, `next_ephemeral` and `initial_seq`
pub record Tcp : Type 0 where
  pub conns : List Tcb
  pub next_ephemeral : ℕ
  pub initial_seq : ℕ

abbrev pub no_ooo : Ooo
no_ooo = record { used = false; seq = 0; buf = [] }

-- A slot of the pool as the loader leaves it: every byte is 0.
unfoldable pub zero_tcb : Tcb
zero_tcb = record {
  state = closed;
  local_ip = 0;
  remote_ip = 0;
  local_port = 0;
  remote_port = 0;
  snd_una = 0;
  snd_nxt = 0;
  snd_wnd = 0;
  rcv_nxt = 0;
  rx_buf = replicate tcp_buffer_size 0;
  rx_head = 0;
  rx_tail = 0;
  tx_buf = replicate tcp_buffer_size 0;
  tx_head = 0;
  tx_tail = 0;
  last_seg_ticks = 0;
  rto_ticks = 0;
  retries = 0;
  cwnd = 0;
  ssthresh = 0;
  peer_wscale = 0;
  peer_mss = 0;
  last_activity_ticks = 0;
  last_keepalive_ticks = 0;
  ooo = no_ooo ∷ no_ooo ∷ [];
  time_wait_ticks = 0;
  owner_pid = 0;
  persist_armed = false;
  persist_last_tick = 0;
  persist_interval = 0;
  peer_sack_lo = 0;
  dup_acks = 0;
  in_use = false;
}

abbrev pub tcb : Tcp → ℕ → Tcb
tcb s i = get_or s.conns i zero_tcb

abbrev pub put_tcb : ℕ → Tcb → Tcp → Tcp
put_tcb i t s = record s { conns = set s.conns i t }

abbrev pub tx_pending : Tcb → ℕ
tx_pending t = (t.tx_tail + tcp_buffer_size - t.tx_head) % tcp_buffer_size

-- What `tcb_alloc` makes of a free slot.
pub fresh_tcb : Tcb → Tcb
fresh_tcb t = record t {
  in_use = true;
  state = closed;
  rx_head = 0;
  rx_tail = 0;
  tx_head = 0;
  tx_tail = 0;
  last_seg_ticks = 0;
  rto_ticks = tcp_rto_initial;
  retries = 0;
  cwnd = 2 * tcp_mss;
  ssthresh = 64 * tcp_mss;
  peer_wscale = 0;
  peer_mss = tcp_mss;
  last_activity_ticks = 0;
  last_keepalive_ticks = 0;
  dup_acks = 0;
  peer_sack_lo = 0;
  persist_armed = false;
  persist_last_tick = 0;
  persist_interval = tcp_persist_initial;
  time_wait_ticks = 0;
  owner_pid = 0;
  ooo =
      record (get_or t.ooo 0 no_ooo) { used = false }
      ∷ record (get_or t.ooo 1 no_ooo) { used = false }
      ∷ [];
}

pub free_tcb : ℕ → List Tcb → Option ℕ
free_tcb i [] = none
free_tcb i (t ∷ l) = if not t.in_use then some i else free_tcb (i + 1) l

pub tcb_alloc : Tcp → Option ℕ × Tcp
unfolding free_tcb fresh_tcb
tcb_alloc s = elim (free_tcb 0 s.conns) [
  | none ↦ (none, s)
  | some i ↦ (some i, put_tcb i (fresh_tcb (tcb s i)) s)
]

-- The bytes in the receive ring, and the window that it leaves.
abbrev pub rx_used : Tcb → ℕ
rx_used t = (t.rx_tail + tcp_buffer_size - t.rx_head) % tcp_buffer_size

pub tcb_rx_wnd : Tcb → ℕ
tcb_rx_wnd t = if leb tcp_buffer_size (rx_used t + 1) then 0 else tcp_buffer_size - 1 - rx_used t

-- The loop of `tcb_rx_inline`: how many bytes it put, and the ring.
pub rx_fill : List ℕ → Tcb → ℕ × Tcb
rx_fill [] t = (0, t)
rx_fill (b ∷ bytes) t =
    let next = (t.rx_tail + 1) % tcp_buffer_size in
    let rest = rx_fill bytes (record t { rx_buf = set t.rx_buf t.rx_tail b; rx_tail = next }) in
    if next == t.rx_head then (0, t) else (rest.0 + 1, rest.1)

pub tcb_rx_inline : List ℕ → Tcb → ℕ × Tcb
unfolding rx_fill
tcb_rx_inline bytes t =
    let r = rx_fill bytes t in (r.0, record r.1 { rcv_nxt = add32 t.rcv_nxt r.0 })

abbrev pub ooo_slot : Tcb → ℕ → Ooo
ooo_slot t k = get_or t.ooo k no_ooo

abbrev pub is_parked : ℕ → Ooo → Bool
is_parked seq s = s.used && (s.seq == seq)

abbrev pub park_at : ℕ → ℕ → List ℕ → Tcb → Tcb
park_at k seq bytes t = record t {
  ooo = set t.ooo k (record { used = true; seq = seq; buf = bytes });
}

pub tcb_ooo_park : ℕ → List ℕ → Tcb → Tcb
tcb_ooo_park seq bytes t =
    if (length bytes == 0) || ltb tcp_mss (length bytes)
    then t
    else if is_parked seq (ooo_slot t 0) || is_parked seq (ooo_slot t 1)
    then t
    else if not (ooo_slot t 0).used
    then park_at 0 seq bytes t
    else if not (ooo_slot t 1).used
    then park_at 1 seq bytes t
    else t

-- One slot of a pass of `tcb_ooo_drain`: whether it made progress, and the connection.
pub drain_slot : ℕ → Tcb → Bool × Tcb
unfolding tcb_rx_inline
drain_slot k t =
    let s = ooo_slot t k in
    let t' = (tcb_rx_inline s.buf t).1 in
    if is_parked t.rcv_nxt s
    then (true, record t' { ooo = set t'.ooo k (record (ooo_slot t' k) { used = false }) })
    else (false, t)

pub drain_pass : Tcb → Bool × Tcb
drain_pass t = let a = drain_slot 0 t in let b = drain_slot 1 a.1 in (a.0 || b.0, b.1)

-- `while (progress)`; `none` means that the fuel ran out.
pub drain_loop : ℕ → Tcb → Option Tcb
drain_loop zero t = none
drain_loop (suc fuel) t =
    let r = drain_pass t in let rest = drain_loop fuel r.1 in if r.0 then rest else some r.1

-- A pass with progress frees a slot, so that the third pass is the last.
pub tcb_ooo_drain : Tcb → Tcb
tcb_ooo_drain t = elim (drain_loop 3 t) [ none ↦ t | some t' ↦ t' ]

pub tcp_arm_rto : ℕ → Tcb → Tcb
tcp_arm_rto now t = record t { last_seg_ticks = now; rto_ticks = tcp_rto_initial; retries = 0 }

abbrev pub is_listen : TcpState → Bool
is_listen listen = true
is_listen _ = false

abbrev pub is_exact : ℕ → ℕ → ℕ → Tcb → Bool
is_exact remote_ip remote_port local_port t =
    (t.remote_ip == remote_ip) && (t.remote_port == remote_port) && (t.local_port == local_port)

-- The search of `tcb_find` from slot `i` on; `listening` is `listen_idx`.
pub find_tcb : ℕ → ℕ → ℕ → ℕ → Option ℕ → List Tcb → Option ℕ
find_tcb ip port local i listening [] = listening
find_tcb ip port local i listening (t ∷ l) =
    let here = is_listen t.state && (t.local_port == local) in
    let rest = find_tcb ip port local (i + 1) (if t.in_use && here then some i else listening) l in
    if t.in_use && is_exact ip port local t then some i else rest

pub tcb_find : ℕ → ℕ → ℕ → Tcp → Option ℕ
unfolding find_tcb
tcb_find remote_ip remote_port local_port s =
    find_tcb remote_ip remote_port local_port 0 none s.conns
