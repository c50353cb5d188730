-- ===== src/Tcp/Tests.antt =====
-- The TCP code on concrete input: one established connection, and variants of it.
use stink_os.Base.{
  ℕ, ◌+◌, ◌-◌, ◌≡◌, refl, List, [], ◌∷◌, ◌++◌, some, none, true, false, length, replicate, take,
  drop, min, arith, add32, length-replicate,
}
use stink_os.Tcp.{
  Tcb, Tcp, tx_pending, established, last_ack, listen, syn_sent, closed, zero_tcb, tcp_buffer_size,
  tcb_ooo_park, tcb_rx_inline, tcb_ooo_drain, tcb_rx_wnd, tcb_find, drain_loop,
}
use stink_os.Tcp.Segment.{Header, header_of, tcp_emit, tcp_ack}
use stink_os.Tcp.Output.{drain_tx_loop, tcp_drain_tx, rx_drain}
use stink_os.Tcp.Input.{handle_conn, handle_data, segment_data}
use stink_os.Tcp.Tick.{tick_tcb, tick_keepalive, tick_persist, tick_retransmit}
use stink_os.Tcp.Checksum.{IsBytes, FitsHeader, Arrives, tcp_emit-Arrives}
use stink_os.Tcp.Receive.{IsRing, rx_content, tcb_rx_inline-Filled, rx_drain-take}
use stink_os.Tcp.Reorder.{IsReceiver, IsQuiet, tcb_ooo_drain-IsQuiet}
use stink_os.Tcp.Swapped.{IsFree, swapped-InOrder}
use stink_os.Tcp.Flow.{IsSender, Flow, tcp_drain_tx-Flow}
use stink_os.Tcp.Resend.{Resent, tcp_drain_tx-resends}
use stink_os.Tcp.Payload.{options-delivered}
use stink_os.Tcp.Syn.{Numbers}
use stink_os.Tcp.Handshake.{Shakes, handshake-Joined}
use stink_os.Tcp.Timeout.{IsTimed, tick_tcb-IsTimed}
use stink_os.Tcp.Silence.{silence, Expiring, Unanswered, silence-frees, silence-never_frees}
use stink_os.Tcp.Pool.{Match, tcb_find-Match}

-- 10.0.2.15:49152 to 10.0.2.2:80, with five bytes queued and nothing in flight.
abbrev open_conn : Tcb
open_conn = record zero_tcb {
  state = established;
  local_ip = 0x0f02000a;
  remote_ip = 0x0202000a;
  local_port = 49152;
  remote_port = 80;
  snd_una = 1000;
  snd_nxt = 1000;
  snd_wnd = 8192;
  rcv_nxt = 5000;
  tx_tail = 5;
  last_seg_ticks = 40;
  rto_ticks = 100;
  cwnd = 2920;
  peer_mss = 1460;
  persist_interval = 100;
  in_use = true;
}

open_conn-IsRing : IsRing open_conn
unfolding zero_tcb
open_conn-IsRing = record {
  sized = length-replicate {A = ℕ} tcp_buffer_size 0;
  head_in = omega arith;
  tail_in = omega arith;
}

open_conn-IsReceiver : IsReceiver open_conn
unfolding zero_tcb
open_conn-IsReceiver = record { ring = open_conn-IsRing; slots = refl }

open_conn_free0 : IsFree 0 open_conn
unfolding zero_tcb
open_conn_free0 = refl

open_conn_free1 : IsFree 1 open_conn
unfolding zero_tcb
open_conn_free1 = refl

open_conn_window : tcb_rx_wnd open_conn ≡ 4095
unfolding zero_tcb tcb_rx_wnd
open_conn_window = refl

open_conn-IsSender : IsSender open_conn
open_conn-IsSender = record {
  una_fits = omega arith;
  nxt_fits = omega arith;
  cwnd_fits = omega arith;
}

abbrev hello : List ℕ
hello = b'h' ∷ b'e' ∷ b'l' ∷ b'l' ∷ b'o' ∷ []

abbrev world : List ℕ
world = b'w' ∷ b'o' ∷ b'r' ∷ b'l' ∷ b'd' ∷ []

hello-IsBytes : IsBytes hello
hello-IsBytes = (omega arith, (omega arith, (omega arith, (omega arith, (omega arith, tt)))))

open_conn-FitsHeader : FitsHeader (header_of open_conn 80 24)
open_conn-FitsHeader = record {
  src_port_fits = omega arith;
  dst_port_fits = omega arith;
  seq_fits = omega arith;
  ack_fits = omega arith;
  data_off_fits = omega arith;
  flags_fits = omega arith;
  window_fits = omega (arith, open_conn_window);
  checksum_fits = omega arith;
  urg_fits = omega arith;
}

tcp_emit-Arrives_example : Arrives open_conn 24 hello
tcp_emit-Arrives_example =
    tcp_emit-Arrives open_conn 24 hello (omega arith) hello-IsBytes open_conn-FitsHeader

-- A FIN with an ACK, for the connection.
abbrev fin_header : Header
fin_header = record {
  src_port = 80;
  dst_port = 49152;
  seq = 5000;
  ack = 1000;
  data_off = 80;
  flags = 17;
  window = 8192;
  checksum = 0;
  urg = 0;
}

-- An ACK of nothing new, in LAST_ACK.
abbrev leaving : Tcb
leaving = record open_conn { state = last_ack; snd_nxt = 1001 }

abbrev stale_ack : Header
stale_ack = record fin_header { flags = 16; ack = 7 }

abbrev after_ack : Tcb
after_ack = (handle_conn 50 0x0f02000a 0x0202000a stale_ack (replicate 20 0) [] 7 leaving).1

-- "world" comes before "hello".
swapped-InOrder_example :
    let early = tcb_ooo_park (add32 5000 5) world open_conn in
    let u = tcb_ooo_drain (tcb_rx_inline hello early).1 in
    (rx_content u ≡ rx_content open_conn ++ (hello ++ world))
    × (u.rcv_nxt ≡ add32 5000 (5 + 5))
    × IsFree 0 u
    × IsFree 1 u
swapped-InOrder_example =
    swapped-InOrder hello world open_conn open_conn-IsReceiver open_conn_free0 open_conn_free1
      (omega arith) (omega arith) (omega arith) (omega (arith, open_conn_window))

-- Two segments are parked; the second slot's turn has come, and then the first one's.
abbrev chained : Tcb
chained = record open_conn {
  ooo =
      record { used = true; seq = 5005; buf = world }
      ∷ record { used = true; seq = 5000; buf = hello }
      ∷ [];
}

chained-IsReceiver : IsReceiver chained
chained-IsReceiver = record {
  ring = record {
    sized = open_conn-IsRing.sized;
    head_in = open_conn-IsRing.head_in;
    tail_in = open_conn-IsRing.tail_in;
  };
  slots = refl;
}

tcb_ooo_drain-IsQuiet_example :
    (drain_loop 3 chained ≡ some (tcb_ooo_drain chained))
    × IsReceiver (tcb_ooo_drain chained)
    × IsQuiet (tcb_ooo_drain chained)
tcb_ooo_drain-IsQuiet_example = tcb_ooo_drain-IsQuiet chained chained-IsReceiver

tcp_drain_tx-Flow_example :
    (drain_tx_loop (2920 + 1) 50 open_conn ≡ some (tcp_drain_tx 50 open_conn))
    × Flow open_conn (tcp_drain_tx 50 open_conn).0 (tcp_drain_tx 50 open_conn).1
tcp_drain_tx-Flow_example = tcp_drain_tx-Flow 50 open_conn open_conn-IsSender refl

tcb_rx_inline-Filled_example :
    IsRing (tcb_rx_inline hello open_conn).1
    × ((tcb_rx_inline hello open_conn).0 ≡ min (length hello) (tcb_rx_wnd open_conn))
    × (rx_content (tcb_rx_inline hello open_conn).1
        ≡ rx_content open_conn ++ take (tcb_rx_inline hello open_conn).0 hello)
    × ((tcb_rx_inline hello open_conn).1.rcv_nxt ≡ add32 5000 (tcb_rx_inline hello open_conn).0)
    × ((tcb_rx_inline hello open_conn).1.ooo ≡ open_conn.ooo)
tcb_rx_inline-Filled_example = tcb_rx_inline-Filled hello open_conn open_conn-IsRing

-- The connection with "hello" in its receive ring.
abbrev greeted : Tcb
greeted = (tcb_rx_inline hello open_conn).1

rx_drain-take_example :
    IsRing (rx_drain 3 greeted).1
    × ((rx_drain 3 greeted).0 ≡ take 3 (rx_content greeted))
    × (rx_content (rx_drain 3 greeted).1 ≡ drop 3 (rx_content greeted))
rx_drain-take_example =
    rx_drain-take 3 greeted (tcb_rx_inline-Filled hello open_conn open_conn-IsRing).0

-- A byte in flight that was sent at tick 40, and ticks at which each timeout has passed.
abbrev hopeless : Tcb
hopeless = record open_conn { snd_nxt = 1001; retries = 0 }

abbrev silent_ticks : List ℕ
silent_ticks = 140 ∷ 340 ∷ 740 ∷ 1540 ∷ 3140 ∷ 6340 ∷ []

hopeless-Unanswered : Unanswered hopeless
hopeless-Unanswered = record {
  used = refl;
  not_waiting = λ e. cc;
  running = λ e. omega (arith, e);
  flying = λ e. omega (arith, e);
  few = omega arith;
}

silent_ticks-Expiring : Expiring silent_ticks hopeless
unfolding Expiring tick_tcb tick_keepalive tick_persist tick_retransmit zero_tcb
silent_ticks-Expiring = (
  λ e. omega (arith, e),
  omega arith,
  (
    λ e. omega (arith, e),
    omega arith,
    (
      λ e. omega (arith, e),
      omega arith,
      (
        λ e. omega (arith, e),
        omega arith,
        (λ e. omega (arith, e), omega arith, (λ e. omega (arith, e), omega arith, tt)),
      ),
    ),
  ),
)

silence-frees_example :
    ((silence silent_ticks hopeless).in_use ≡ false)
    × ((silence silent_ticks hopeless).state ≡ closed)
silence-frees_example =
    silence-frees silent_ticks hopeless hopeless-Unanswered silent_ticks-Expiring refl

-- The clock wraps to 0 when the timeout has passed.
silence-never_frees_example :
    ((silence (0 ∷ 500 ∷ 90000 ∷ []) hopeless).in_use ≡ true)
    × ((silence (0 ∷ 500 ∷ 90000 ∷ []) hopeless).last_seg_ticks ≡ 0)
silence-never_frees_example =
    silence-never_frees (500 ∷ 90000 ∷ []) hopeless hopeless-Unanswered (omega arith) (omega arith)

hopeless-IsTimed : IsTimed hopeless
hopeless-IsTimed = record {
  few_retries = omega arith;
  rto_bound = omega arith;
  persist_bound = omega arith;
}

tick_tcb-IsTimed_example : IsTimed (tick_tcb 60 hopeless).1
tick_tcb-IsTimed_example = tick_tcb-IsTimed 60 hopeless hopeless-IsTimed

-- A listening socket and a connection to the same port.
abbrev listening : Tcb
listening = record open_conn { state = listen; remote_ip = 0; remote_port = 0 }

abbrev pool : Tcp
pool = record { conns = listening ∷ open_conn ∷ []; next_ephemeral = 49153; initial_seq = 0 }

tcb_find-Match_example :
    Match 0x0202000a 80 49152 pool.conns 0 none (tcb_find 0x0202000a 80 49152 pool)
tcb_find-Match_example = tcb_find-Match 0x0202000a 80 49152 pool

-- A connection that is being dialing, and the socket of its server.
abbrev dialing : Tcb
dialing = record open_conn { state = syn_sent; rcv_nxt = 0 }

abbrev http_server : Tcb
http_server = record open_conn {
  state = listen;
  local_ip = 0x0202000a;
  local_port = 80;
  remote_ip = 0;
  remote_port = 0;
}

dialing-Numbers : Numbers dialing
dialing-Numbers = record {
  local_port_fits = omega arith;
  remote_port_fits = omega arith;
  nxt_fits = omega arith;
  rcv_fits = omega arith;
}

handshake-Joined_example : Shakes 10 20 30 40 64000 7 [] dialing http_server
handshake-Joined_example =
    handshake-Joined 10 20 30 40 64000 7 [] dialing http_server dialing-Numbers (omega arith) refl
      refl refl refl

open_conn_pending : tx_pending open_conn ≡ 5
unfolding zero_tcb
open_conn_pending = refl

tcp_drain_tx-resends_example : Resent 50 5 open_conn
tcp_drain_tx-resends_example =
    tcp_drain_tx-resends 50 5 open_conn open_conn-IsSender refl open_conn_pending (omega arith)
      (omega arith) refl (omega arith) (omega arith)

-- An ACK with four bytes of options and no data.
abbrev option_header : Header
option_header = record fin_header { flags = 16; data_off = 96 }

abbrev option_segment : List ℕ
option_segment =
    0 ∷ 80 ∷ 192 ∷ 0 ∷ 0 ∷ 0 ∷ 19 ∷ 136 ∷ 0 ∷ 0 ∷ 3 ∷ 232 ∷ 96 ∷ 16 ∷ 32 ∷ 0 ∷ 0 ∷ 0 ∷ 0 ∷ 0 ∷ 1 ∷ 1
    ∷ 1 ∷ 0 ∷ []

options-delivered_example :
    (rx_content (handle_data option_header (segment_data option_header option_segment) open_conn).1
      ≡ rx_content open_conn ++ drop 20 option_segment)
    × ((handle_data option_header (segment_data option_header option_segment) open_conn).1.rcv_nxt
        ≡ add32 5000 (length option_segment - 20))
    × ((handle_data option_header (segment_data option_header option_segment) open_conn).0
        ≡ tcp_emit
            (handle_data option_header (segment_data option_header option_segment) open_conn).1
            tcp_ack
            [])
options-delivered_example =
    options-delivered option_header option_segment open_conn open_conn-IsReceiver open_conn_free0
      open_conn_free1 refl refl (omega arith) (omega (arith, open_conn_window))
