-- ===== src/Tcp/Checksum.antt =====
-- The checksum of kernel/drivers/net/tcp.c, as the sender stores it and the receiver tests it, and the header
-- on the wire.
use stink_os.Base.{
  ℕ, ◌+◌, ◌-◌, ◌*◌, ◌/◌, ◌%◌, ◌^◌, ◌≤◌, ◌<◌, ◌≡◌, ◌∙◌, inl, inr, refl, ap, List, [], ◌∷◌, ◌++◌,
  some, true, false, length, ◌==◌, arith, All, Bool-cases, u32_mod, drop, ltb,
}
use stink_os.Tcp.{Tcb}
use stink_os.Tcp.Segment.{
  Header, Sent, header_bytes, read_header, sum_words, segment_sum, fold, fold_loop, tcp_checksum,
  tcp_checksum_ok, sealed, pseudo_header, header_of, tcp_emit,
}

abbrev pub IsBytes : List ℕ → Type 0
IsBytes l = All (λ b. b < 256) l

-- Two rounds of the fold.
abbrev folded : ℕ → ℕ
folded s = (s % 65536 + s / 65536) % 65536 + (s % 65536 + s / 65536) / 65536

-- The fuel of the fold is enough for an `unsigned int`.
fold_loop_lem : (s : ℕ) → s < 2 ^ 32 → fold_loop 3 s ≡ some (folded s)
unfolding fold_loop
fold_loop_lem s lt = elim (Bool-cases (s / 65536 == 0)) [
  | inl e ↦ rw e (ap some (ground arith))
  | inr e ↦ elim (Bool-cases ((s % 65536 + s / 65536) / 65536 == 0)) [
    | inl e' ↦ rw (e, e') (ap some (ground arith))
    | inr e' ↦ let last : (folded s / 65536 == 0) ≡ true = ground arith in rw (e, e', last) refl
  ]
]

fold_lem : (s : ℕ) → s < 2 ^ 32 → fold s ≡ folded s
unfolding fold
fold_lem s lt = rw (fold_loop_lem s lt, fold) refl

-- A sum that is completed by the complement of its fold folds to all ones.
folded-complement : (s : ℕ) → s + 65535 < 2 ^ 32 → folded (s + (65535 - folded s)) ≡ 65535
folded-complement s lt = omega arith

sum_words-le : (l : List ℕ) → IsBytes l → sum_words l ≤ 65535 * length l
unfolding sum_words
sum_words-le [] b = omega arith
sum_words-le (x ∷ []) b = omega (arith, b.0)
sum_words-le (x ∷ y ∷ l) b = omega (arith, b.0, b.1.0, sum_words-le l b.1.1)

-- The sum over a segment is the sum with the checksum field at 0, and the checksum.
sum_words-header :
    (h : Header) (c : ℕ) (rest : List ℕ)
    → c < 65536
    → sum_words (header_bytes (record h { checksum = c }) ++ rest)
      ≡ sum_words (header_bytes (record h { checksum = 0 }) ++ rest) + c
unfolding sum_words header_bytes
sum_words-header h c rest lt = omega arith

pub length-header_bytes :
    (h : Header) (rest : List ℕ) → length (header_bytes h ++ rest) ≡ 20 + length rest
unfolding header_bytes
length-header_bytes h rest = omega arith

sum_words-header-le :
    (h : Header) (rest : List ℕ)
    → IsBytes rest
    → sum_words (header_bytes h ++ rest) ≤ 65535 * 10 + 65535 * length rest
unfolding sum_words header_bytes
sum_words-header-le h rest b = omega (arith, sum_words-le rest b)

pseudo_header-le : (src dst n : ℕ) → sum_words (pseudo_header src dst n) ≤ 65535 * 6
unfolding sum_words
pseudo_header-le src dst n = omega arith

-- What the fields of a header hold.
pub record FitsHeader (h : Header) : Type 0 where
  pub src_port_fits : h.src_port < 65536
  pub dst_port_fits : h.dst_port < 65536
  pub seq_fits : h.seq < 2 ^ 32
  pub ack_fits : h.ack < 2 ^ 32
  pub data_off_fits : h.data_off < 256
  pub flags_fits : h.flags < 256
  pub window_fits : h.window < 65536
  pub checksum_fits : h.checksum < 65536
  pub urg_fits : h.urg < 65536

read_header-bytes :
    (h : Header) (rest : List ℕ) → FitsHeader h → read_header (header_bytes h ++ rest) ≡ h
unfolding read_header header_bytes
read_header-bytes h rest f = ground arith

module _ (src dst : ℕ) (h : Header) (rest : List ℕ) (b : IsBytes rest)
    (short : length rest ≤ 60000) where
  blank : List ℕ
  blank = header_bytes (record h { checksum = 0 }) ++ rest

  blank_sum : ℕ
  blank_sum = sum_words (pseudo_header src dst (20 + length rest)) + sum_words blank

  blank_sum-lt : blank_sum + 65535 < 2 ^ 32
  unfolding blank_sum blank
  blank_sum-lt = omega (
    arith,
    sum_words-header-le (record h { checksum = 0 }) rest b,
    pseudo_header-le src dst (20 + length rest),
  )

  blank_sum_lem :
      blank_sum
      ≡ sum_words (pseudo_header src dst (20 + length rest))
        + sum_words (header_bytes (record h { checksum = 0 }) ++ rest)
  unfolding blank_sum blank
  blank_sum_lem = refl

  checksum_lem : tcp_checksum src dst blank ≡ 65535 - folded blank_sum
  unfolding tcp_checksum segment_sum blank blank_sum
  checksum_lem =
      let len = length-header_bytes (record h { checksum = 0 }) rest in
      ap (λ n. 65535 - fold ((sum_words (pseudo_header src dst n) + sum_words blank) % u32_mod)) len
      ∙ ap (λ s. 65535 - fold s) small
      ∙ ap (λ s. 65535 - s) (fold_lem blank_sum (omega (arith, blank_sum-lt)))
    where
      small : blank_sum % u32_mod ≡ blank_sum
      small = omega (arith, blank_sum-lt)

  pub complement : ℕ
  complement = tcp_checksum src dst blank

  full_sum :
      segment_sum src dst (header_bytes (record h { checksum = complement }) ++ rest)
      ≡ blank_sum + (65535 - folded blank_sum)
  unfolding segment_sum complement blank
  full_sum =
      let fits : tcp_checksum src dst blank < 65536 = omega (arith, checksum_lem) in
      let len = length-header_bytes (record h { checksum = tcp_checksum src dst blank }) rest in
      let words = sum_words-header h (tcp_checksum src dst blank) rest fits in
      ap
        (λ n.
          (sum_words (pseudo_header src dst n)
            + sum_words (header_bytes (record h { checksum = tcp_checksum src dst blank }) ++ rest))
          % u32_mod)
        len
      ∙ ap (λ w. (sum_words (pseudo_header src dst (20 + length rest)) + w) % u32_mod)
          (words ∙ ap (λ c. sum_words blank + c) checksum_lem)
      ∙ fits_sum
    where
      fits_sum :
          (sum_words (pseudo_header src dst (20 + length rest))
              + (sum_words (header_bytes (record h { checksum = 0 }) ++ rest)
                  + (65535 - folded blank_sum)))
            % u32_mod
          ≡ blank_sum + (65535 - folded blank_sum)
      fits_sum = omega (arith, blank_sum_lem, blank_sum-lt)

  -- A segment that is sealed with its checksum passes the receiver's test.
  pub sealed-checksum_ok : tcp_checksum_ok src dst (sealed src dst h rest) ≡ true
  unfolding tcp_checksum_ok sealed complement blank
  sealed-checksum_ok =
      ap (λ s. fold s == 65535) full_sum
      ∙ ap (λ s. s == 65535)
          (fold_lem (blank_sum + (65535 - folded blank_sum)) (omega (arith, blank_sum-lt))
            ∙ folded-complement blank_sum blank_sum-lt)

  -- The receiver reads the header as it was written, with the checksum, and the rest behind it.
  pub sealed-read :
      FitsHeader h
      → (read_header (sealed src dst h rest) ≡ record h { checksum = complement })
        × (drop 20 (sealed src dst h rest) ≡ rest)
  unfolding sealed complement blank
  sealed-read f = (
    read_header-bytes (record h { checksum = complement }) rest
        (record {
          src_port_fits = f.src_port_fits;
          dst_port_fits = f.dst_port_fits;
          seq_fits = f.seq_fits;
          ack_fits = f.ack_fits;
          data_off_fits = f.data_off_fits;
          flags_fits = f.flags_fits;
          window_fits = f.window_fits;
          checksum_fits = omega (arith, checksum_lem);
          urg_fits = f.urg_fits;
        }),
    unfold header_bytes in refl,
  )

-- One segment `m`, to the peer, that passes its test and is read as it was meant; `c` is the checksum.
abbrev pub Arrives : Tcb → ℕ → List ℕ → Type 0
Arrives t flags payload =
    (m : Sent) × (c : ℕ) × (tcp_emit t flags payload ≡ m ∷ [])
    × (m.dst ≡ t.remote_ip)
    × (tcp_checksum_ok t.local_ip t.remote_ip m.bytes ≡ true)
    × (read_header m.bytes ≡ record (header_of t 80 flags) { checksum = c })
    × (drop 20 m.bytes ≡ payload)

-- The segment that arrives for a call of `tcp_emit` with no more than 1480 bytes: one segment, to the
-- peer, whose checksum the peer accepts; the peer reads the connection's ports, its sequence numbers, the
-- flags and the free space of its receive ring from it, and the payload behind the 20 bytes of header.
pub tcp_emit-Arrives :
    (t : Tcb) (flags : ℕ) (payload : List ℕ)
    → length payload ≤ 1480
    → IsBytes payload
    → FitsHeader (header_of t 80 flags)
    → Arrives t flags payload
unfolding tcp_emit
tcp_emit-Arrives t flags payload short b f =
    let h = header_of t 80 flags in
    let le : length payload ≤ 60000 = omega arith in
    let read = sealed-read t.local_ip t.remote_ip h payload b le f in
    let fits : ltb 1500 (20 + length payload) ≡ false = ground arith in
    (
      record { dst = t.remote_ip; bytes = sealed t.local_ip t.remote_ip h payload },
      complement t.local_ip t.remote_ip h payload b le,
      rw fits refl,
      refl,
      sealed-checksum_ok t.local_ip t.remote_ip h payload b le,
      read.0,
      read.1,
    )
