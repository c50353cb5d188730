-- ===== src/Tcp/Segment.antt =====
-- The segments of kernel/drivers/net/tcp.c on the wire: the header of tcp.h, the checksum over the pseudo
-- header and the segment, the segments that are emitted, and the options that are read. A segment handed to
-- `ipv4_send` is a result: its destination and its bytes.
use stink_os.Base.{
  ℕ, zero, suc, ◌+◌, ◌-◌, ◌*◌, ◌/◌, ◌%◌, List, [], ◌∷◌, ◌++◌, Option, none, some, Bool, length,
  get_or, replicate, ltb, ◌==◌, if◌then◌else◌, add32, u32_mod,
}
use stink_os.Tcp.{Tcb, Ooo, ooo_slot, tcb_rx_wnd, tcp_mss, zero_tcb}

-- `struct tcp_hdr`, its fields in host order
pub record Header : Type 0 where
  pub src_port : ℕ
  pub dst_port : ℕ
  pub seq : ℕ
  pub ack : ℕ
  pub data_off : ℕ
  pub flags : ℕ
  pub window : ℕ
  pub checksum : ℕ
  pub urg : ℕ

-- A segment handed to `ipv4_send`
pub record Sent : Type 0 where
  pub dst : ℕ
  pub bytes : List ℕ

abbrev pub tcp_fin : ℕ
tcp_fin = 0x01

abbrev pub tcp_syn : ℕ
tcp_syn = 0x02

abbrev pub tcp_rst : ℕ
tcp_rst = 0x04

abbrev pub tcp_psh : ℕ
tcp_psh = 0x08

abbrev pub tcp_ack : ℕ
tcp_ack = 0x10

-- A flag is a power of two: whether the byte has its bit.
abbrev pub has_flag : ℕ → ℕ → Bool
has_flag flag flags = flags / flag % 2 == 1

-- `htons` and `htonl` of a field, as its bytes in memory, and an IPv4 address as the word is stored.
abbrev pub be16 : ℕ → List ℕ
be16 x = x / 256 % 256 ∷ x % 256 ∷ []

abbrev pub be32 : ℕ → List ℕ
be32 x = x / 16777216 % 256 ∷ x / 65536 % 256 ∷ x / 256 % 256 ∷ x % 256 ∷ []

abbrev pub le32 : ℕ → List ℕ
le32 x = x % 256 ∷ x / 256 % 256 ∷ x / 65536 % 256 ∷ x / 16777216 % 256 ∷ []

-- The packed header in memory, and read from memory.
unfoldable pub header_bytes : Header → List ℕ
header_bytes h =
    be16 h.src_port
    ++ (be16 h.dst_port
        ++ (be32 h.seq
            ++ (be32 h.ack
                ++ (h.data_off % 256
                    ∷ h.flags % 256
                    ∷ (be16 h.window ++ (be16 h.checksum ++ be16 h.urg))))))

abbrev pub read16 : List ℕ → ℕ → ℕ
read16 b i = get_or b i 0 * 256 + get_or b (i + 1) 0

abbrev pub read32 : List ℕ → ℕ → ℕ
read32 b i =
    get_or b i 0 * 16777216
    + get_or b (i + 1) 0 * 65536
    + get_or b (i + 2) 0 * 256
    + get_or b (i + 3) 0

unfoldable pub read_header : List ℕ → Header
read_header b = record {
  src_port = read16 b 0;
  dst_port = read16 b 2;
  seq = read32 b 4;
  ack = read32 b 8;
  data_off = get_or b 12 0;
  flags = get_or b 13 0;
  window = read16 b 14;
  checksum = read16 b 16;
  urg = read16 b 18;
}

-- The 16-bit words of a run of bytes, summed; a last odd byte is the high one.
unfoldable pub sum_words : List ℕ → ℕ
sum_words [] = 0
sum_words (a ∷ []) = a * 256
sum_words (a ∷ b ∷ l) = a * 256 + b + sum_words l

-- `struct pseudo_hdr` in memory; `IP_PROTO_TCP` is 6.
abbrev pub pseudo_header : ℕ → ℕ → ℕ → List ℕ
pseudo_header src dst seg_len = le32 src ++ (le32 dst ++ (0 ∷ 6 ∷ be16 (seg_len % 65536)))

-- The sum over both, in an `unsigned int`.
unfoldable pub segment_sum : ℕ → ℕ → List ℕ → ℕ
segment_sum src dst segment =
    (sum_words (pseudo_header src dst (length segment)) + sum_words segment) % u32_mod

-- `while (sum >> 16)`: `none` means that the fuel ran out.
unfoldable pub fold_loop : ℕ → ℕ → Option ℕ
fold_loop zero sum = none
fold_loop (suc fuel) sum =
    let rest = fold_loop fuel (sum % 65536 + sum / 65536) in
    if sum / 65536 == 0 then some sum else rest

-- Three rounds are enough for 32 bits.
unfoldable pub fold : ℕ → ℕ
unfolding fold_loop
fold sum = elim (fold_loop 3 sum) [ none ↦ sum | some x ↦ x ]

unfoldable pub tcp_checksum_ok : ℕ → ℕ → List ℕ → Bool
tcp_checksum_ok src dst segment = fold (segment_sum src dst segment) == 65535

-- The value that is stored by `htons`, here as the number in the field.
unfoldable pub tcp_checksum : ℕ → ℕ → List ℕ → ℕ
tcp_checksum src dst segment = 65535 - fold (segment_sum src dst segment)

-- A header with its checksum, in front of what follows it.
unfoldable pub sealed : ℕ → ℕ → Header → List ℕ → List ℕ
sealed src dst h rest =
    header_bytes (record h {
      checksum = tcp_checksum src dst (header_bytes (record h { checksum = 0 }) ++ rest);
    })
    ++ rest

-- The header fields that every segment of a connection shares.
abbrev pub header_of : Tcb → ℕ → ℕ → Header
header_of t data_off flags = record {
  src_port = t.local_port;
  dst_port = t.remote_port;
  seq = t.snd_nxt;
  ack = t.rcv_nxt;
  data_off = data_off;
  flags = flags;
  window = tcb_rx_wnd t;
  checksum = 0;
  urg = 0;
}

-- The segments are a list: `tcp_emit` drops one that is longer than its buffer of 1500 bytes.
unfoldable pub tcp_emit : Tcb → ℕ → List ℕ → List Sent
unfolding sealed
tcp_emit t flags payload =
    if ltb 1500 (20 + length payload)
    then []
    else record {
      dst = t.remote_ip;
      bytes = sealed t.local_ip t.remote_ip (header_of t 80 flags) payload;
    }
      ∷ []

-- `while (off & 3u) buf[off++] = c`
abbrev pub padding_to_four : ℕ → ℕ → List ℕ
padding_to_four off c = replicate ((4 - off % 4) % 4) c

-- `(unsigned char)((off >> 2) << 4)`
abbrev pub offset_byte : ℕ → ℕ
offset_byte off = off / 4 * 16 % 256

-- Options behind the fixed header, padded with `c`.
unfoldable pub emit_options : Tcb → ℕ → List ℕ → ℕ → List Sent
unfolding sealed replicate
emit_options t flags options c =
    let padded = options ++ padding_to_four (20 + length options) c in
    record {
      dst = t.remote_ip;
      bytes =
          sealed t.local_ip t.remote_ip (header_of t (offset_byte (20 + length padded)) flags)
            padded;
    }
    ∷ []

-- The MSS option and SACK-permitted.
abbrev pub syn_options : List ℕ
syn_options = 2 ∷ 4 ∷ tcp_mss / 256 % 256 ∷ tcp_mss % 256 ∷ 4 ∷ 2 ∷ []

unfoldable pub tcp_emit_syn : Tcb → ℕ → List Sent
unfolding emit_options
tcp_emit_syn t flags = emit_options t flags syn_options 1

-- One SACK block, if the slot is used.
abbrev pub sack_block : Ooo → List ℕ
sack_block s = if s.used then be32 s.seq ++ be32 ((s.seq + length s.buf) % u32_mod) else []

unfoldable pub tcp_emit_sack_ack : Tcb → List Sent
unfolding tcp_emit emit_options
tcp_emit_sack_ack t =
    let blocks = sack_block (ooo_slot t 0) ++ sack_block (ooo_slot t 1) in
    if length blocks == 0
    then tcp_emit t tcp_ack []
    else emit_options t tcp_ack (1 ∷ 1 ∷ 5 ∷ (2 + length blocks) % 256 ∷ blocks) 0

-- The reset that answers a segment of no connection; the scratch TCB has an empty receive ring.
unfoldable pub tcp_emit_rst : ℕ → ℕ → Header → List Sent
unfolding tcp_emit zero_tcb
tcp_emit_rst local_ip src_ip h =
    tcp_emit
      (record zero_tcb {
        local_ip = local_ip;
        remote_ip = src_ip;
        local_port = h.dst_port;
        remote_port = h.src_port;
        snd_nxt = if has_flag tcp_ack h.flags then h.ack else 0;
        rcv_nxt = if has_flag tcp_syn h.flags then add32 h.seq 1 else h.seq;
      })
      (tcp_rst + tcp_ack) []
