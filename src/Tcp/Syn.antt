-- ===== src/Tcp/Syn.antt =====
-- The SYN segments of kernel/drivers/net/tcp.c: what arrives of one, and what its options teach the peer.
use stink_os.Base.{
  ℕ, ◌+◌, ◌≤◌, ◌<◌, ◌^◌, ◌≡◌, refl, List, [], ◌∷◌, ◌++◌, true, length, drop, replicate, arith,
}
use stink_os.Tcp.{Tcb, tcb_rx_wnd}
use stink_os.Tcp.Segment.{
  Header, Sent, header_of, sealed, header_bytes, read_header, tcp_checksum, tcp_checksum_ok,
  tcp_emit_syn, emit_options,
}
use stink_os.Tcp.Options.{parse_mss, parse_wscale, next_option}
use stink_os.Tcp.Input.{data_offset, learn_options}
use stink_os.Tcp.Checksum.{
  IsBytes, FitsHeader, sealed-checksum_ok, sealed-read, complement, length-header_bytes,
}

-- The options of a SYN, padded with two NOPs.
abbrev pub sent_options : List ℕ
sent_options = 2 ∷ 4 ∷ 5 ∷ 180 ∷ 4 ∷ 2 ∷ 1 ∷ 1 ∷ []

-- The bytes of a segment with those options.
pub record IsSyn (h : Header) (p : List ℕ) : Type 0 where
  pub offset : data_offset h ≡ 28
  pub long : length p ≡ 28
  pub options : drop 20 p ≡ sent_options

tcb_rx_wnd-lt : (t : Tcb) → tcb_rx_wnd t < 65536
unfolding tcb_rx_wnd
tcb_rx_wnd-lt t = ground arith

-- The ports have 16 bits, the sequence numbers 32.
pub record Numbers (t : Tcb) : Type 0 where
  pub local_port_fits : t.local_port < 65536
  pub remote_port_fits : t.remote_port < 65536
  pub nxt_fits : t.snd_nxt < 2 ^ 32
  pub rcv_fits : t.rcv_nxt < 2 ^ 32

pub FitsHeader-header_of :
    (t : Tcb) (off flags : ℕ)
    → Numbers t
    → off < 256
    → flags < 256
    → FitsHeader (header_of t off flags)
FitsHeader-header_of t off flags n o f = record {
  src_port_fits = n.local_port_fits;
  dst_port_fits = n.remote_port_fits;
  seq_fits = n.nxt_fits;
  ack_fits = n.rcv_fits;
  data_off_fits = o;
  flags_fits = f;
  window_fits = tcb_rx_wnd-lt t;
  checksum_fits = omega arith;
  urg_fits = omega arith;
}

sent_options-IsBytes : IsBytes sent_options
sent_options-IsBytes = (
  omega arith,
  (
    omega arith,
    (omega arith, (omega arith, (omega arith, (omega arith, (omega arith, (omega arith, tt)))))),
  ),
)

length-sealed :
    (src dst : ℕ) (h : Header) (rest : List ℕ) → length (sealed src dst h rest) ≡ 20 + length rest
unfolding sealed
length-sealed src dst h rest =
    length-header_bytes
      (record h {
        checksum = tcp_checksum src dst (header_bytes (record h { checksum = 0 }) ++ rest);
      })
      rest

-- A SYN on its way: the checksum that it carries is `c`.
abbrev pub SynArrives : Tcb → ℕ → Type 0
SynArrives t flags =
    (m : Sent) × (c : ℕ) × (tcp_emit_syn t flags ≡ m ∷ [])
    × (tcp_checksum_ok t.local_ip t.remote_ip m.bytes ≡ true)
    × (read_header m.bytes ≡ record (header_of t 112 flags) { checksum = c })
    × (length m.bytes ≡ 28)
    × (drop 20 m.bytes ≡ sent_options)

pub tcp_emit_syn-SynArrives : (t : Tcb) (flags : ℕ) → Numbers t → flags < 256 → SynArrives t flags
unfolding tcp_emit_syn emit_options replicate
tcp_emit_syn-SynArrives t flags n f =
    let h = header_of t 112 flags in
    let le : length sent_options ≤ 60000 = omega arith in
    let read =
      sealed-read t.local_ip t.remote_ip h sent_options sent_options-IsBytes le
        (FitsHeader-header_of t 112 flags n (omega arith) f) in
    (
      record { dst = t.remote_ip; bytes = sealed t.local_ip t.remote_ip h sent_options },
      complement t.local_ip t.remote_ip h sent_options sent_options-IsBytes le,
      refl,
      sealed-checksum_ok t.local_ip t.remote_ip h sent_options sent_options-IsBytes le,
      read.0,
      length-sealed t.local_ip t.remote_ip h sent_options,
      read.1,
    )

pub learn_options-Syn :
    (h : Header) (p : List ℕ) (t : Tcb)
    → IsSyn h p
    → learn_options h p t ≡ record t { peer_wscale = 0; peer_mss = 1460 }
unfolding learn_options parse_mss parse_wscale next_option
learn_options-Syn h p t v = rw (v.offset, v.long, v.options) refl
