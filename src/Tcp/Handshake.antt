-- ===== src/Tcp/Handshake.antt =====
-- The three-way handshake of kernel/drivers/net/tcp.c, between two copies of it.
use stink_os.Base.{
  ℕ, ◌<◌, ◌^◌, ◌≡◌, ◌∙◌, refl, sym, ap, List, [], ◌∷◌, true, length, drop, arith, add32, ◌==◌,
}
use stink_os.Tcp.{Tcb, listen, syn_sent, established, tcb_rx_wnd, tcp_mss, tcp_arm_rto}
use stink_os.Tcp.Segment.{
  Header, Sent, header_of, tcp_syn, tcp_ack, read_header, tcp_checksum_ok, tcp_emit, tcp_emit_syn,
}
use stink_os.Tcp.Output.{after_control}
use stink_os.Tcp.Input.{handle_conn}
use stink_os.Tcp.Checksum.{Arrives, tcp_emit-Arrives}
use stink_os.Tcp.Syn.{
  sent_options, Numbers, FitsHeader-header_of, SynArrives, tcp_emit_syn-SynArrives,
}
use stink_os.Tcp.Accept.{
  accepting, answering, accepted, handle_conn-listen, handle_conn-syn_sent,
  handle_conn-syn_received,
}

-- Both ends are established, with no timer running and nothing in flight; each expects what the other
-- one sends next, knows the free space of its ring, and sends segments of 1460 bytes at most.
pub record Joined (c l c' s' : Tcb) : Type 0 where
  pub client_open : c'.state ≡ established
  pub server_open : s'.state ≡ established
  pub client_next : c'.snd_nxt ≡ s'.rcv_nxt
  pub server_next : s'.snd_nxt ≡ c'.rcv_nxt
  pub client_acked : c'.snd_una ≡ c'.snd_nxt
  pub server_acked : s'.snd_una ≡ s'.snd_nxt
  pub client_window : c'.snd_wnd ≡ tcb_rx_wnd l
  pub server_window : s'.snd_wnd ≡ tcb_rx_wnd c
  pub client_mss : c'.peer_mss ≡ tcp_mss
  pub server_mss : s'.peer_mss ≡ tcp_mss
  pub client_timer : c'.last_seg_ticks ≡ 0
  pub server_timer : s'.last_seg_ticks ≡ 0

-- The segments and the connections of the handshake: the SYN of `c`, sent at `t0`; what the listening `l`
-- makes of it at `t1`, with `seq` for its `initial_seq`; what `c` makes of the answer at `t2`; and what `l`
-- makes of the last ACK at `t3`. `behind` is the memory behind the segments.
abbrev pub Shakes : (t0 t1 t2 t3 seq other : ℕ) (behind : List ℕ) (c l : Tcb) → Type 0
Shakes t0 t1 t2 t3 seq other behind c l =
    (m1 m2 m3 : Sent) × (s1 c' s' : Tcb) × (tcp_emit_syn c tcp_syn ≡ m1 ∷ [])
    × (tcp_checksum_ok c.local_ip c.remote_ip m1.bytes ≡ true)
    × (handle_conn t1 c.remote_ip c.local_ip (read_header m1.bytes) m1.bytes behind seq l
        ≡ (m2 ∷ [], s1, add32 seq 64000))
    × (tcp_checksum_ok c.remote_ip c.local_ip m2.bytes ≡ true)
    × (handle_conn t2 c.local_ip c.remote_ip (read_header m2.bytes) m2.bytes behind other
          (after_control t0 c)
        ≡ (m3 ∷ [], c', other))
    × (tcp_checksum_ok c.local_ip c.remote_ip m3.bytes ≡ true)
    × (handle_conn t3 c.remote_ip c.local_ip (read_header m3.bytes) m3.bytes behind
          (add32 seq 64000) s1
        ≡ ([], s', add32 seq 64000))
    × Joined c l c' s'

module _ (t0 t1 t2 t3 seq other : ℕ) (behind : List ℕ) (c l : Tcb) (n : Numbers c)
    (lt : seq < 2 ^ 32) (sc : c.state ≡ syn_sent) (sl : l.state ≡ listen)
    (ip : l.local_ip ≡ c.remote_ip) (port : l.local_port ≡ c.remote_port) where
  -- The headers, with their checksums, and the connections.
  abbrev syn : ℕ → Header
  syn k = record (header_of c 112 tcp_syn) { checksum = k }

  abbrev half : ℕ → Tcb
  half k = accepting t1 c.local_ip seq (syn k) l

  abbrev syn_ack : ℕ → ℕ → Header
  syn_ack k k' = record (header_of (half k) 112 18) { checksum = k' }

  abbrev client : ℕ → ℕ → Tcb
  client k k' = answering t2 (syn_ack k k') (after_control t0 c)

  abbrev last_ack_header : ℕ → ℕ → ℕ → Header
  last_ack_header k k' k'' = record (header_of (client k k') 80 tcp_ack) { checksum = k'' }

  abbrev server : ℕ → ℕ → ℕ → Tcb
  server k k' k'' = accepted t3 (last_ack_header k k' k'') (after_control t1 (half k))

  half-Numbers : (k : ℕ) → Numbers (half k)
  unfolding accepting
  half-Numbers k = record {
    local_port_fits = omega (arith, port, n.remote_port_fits);
    remote_port_fits = n.local_port_fits;
    nxt_fits = lt;
    rcv_fits = omega arith;
  }

  client-Numbers : (k k' : ℕ) → Numbers (client k k')
  unfolding answering tcp_arm_rto accepting
  client-Numbers k k' = record {
    local_port_fits = n.local_port_fits;
    remote_port_fits = n.remote_port_fits;
    nxt_fits = omega arith;
    rcv_fits = omega arith;
  }

  same_number : (x y : ℕ) → x ≡ y → (x == y) ≡ true
  same_number x y e = ground arith

  first_step :
      (k : ℕ) (b : List ℕ)
      → read_header b ≡ syn k
      → length b ≡ 28
      → drop 20 b ≡ sent_options
      → handle_conn t1 c.remote_ip c.local_ip (read_header b) b behind seq l
        ≡ (tcp_emit_syn (half k) 18, after_control t1 (half k), add32 seq 64000)
  first_step k b r len opt =
      ap (λ h. handle_conn t1 c.remote_ip c.local_ip h b behind seq l) r
      ∙ handle_conn-listen t1 c.remote_ip c.local_ip seq (syn k) b behind l sl refl
          (record { offset = refl; long = len; options = opt })

  second_step :
      (k k' : ℕ) (b : List ℕ)
      → read_header b ≡ syn_ack k k'
      → length b ≡ 28
      → drop 20 b ≡ sent_options
      → handle_conn t2 c.local_ip c.remote_ip (read_header b) b behind other (after_control t0 c)
        ≡ (tcp_emit (client k k') tcp_ack [], client k k', other)
  unfolding tcp_arm_rto accepting
  second_step k k' b r len opt =
      ap (λ h. handle_conn t2 c.local_ip c.remote_ip h b behind other (after_control t0 c)) r
      ∙ handle_conn-syn_sent t2 c.local_ip c.remote_ip other (syn_ack k k') b behind
          (after_control t0 c) sc refl (same_number (add32 c.snd_nxt 1) (add32 c.snd_nxt 1) refl)
          (record { offset = refl; long = len; options = opt })

  third_step :
      (k k' k'' : ℕ) (b : List ℕ)
      → read_header b ≡ last_ack_header k k' k''
      → handle_conn t3 c.remote_ip c.local_ip
          (read_header b)
          b
          behind
          (add32 seq 64000)
          (after_control t1 (half k))
        ≡ ([], server k k' k'', add32 seq 64000)
  unfolding tcp_arm_rto accepting answering
  third_step k k' k'' b r =
      ap
        (λ h.
          handle_conn t3 c.remote_ip c.local_ip h b behind (add32 seq 64000)
            (after_control t1 (half k)))
        r
      ∙ handle_conn-syn_received t3 c.remote_ip c.local_ip (add32 seq 64000)
          (last_ack_header k k' k'') b behind (after_control t1 (half k)) refl refl
          (same_number (add32 seq 1) (add32 seq 1) refl)

  ends-Joined : (k k' k'' : ℕ) → Joined c l (client k k') (server k k' k'')
  unfolding tcp_arm_rto accepting answering accepted tcb_rx_wnd
  ends-Joined k k' k'' = record {
    client_open = refl;
    server_open = refl;
    client_next = refl;
    server_next = refl;
    client_acked = refl;
    server_acked = refl;
    client_window = omega arith;
    server_window = omega arith;
    client_mss = refl;
    server_mss = refl;
    client_timer = refl;
    server_timer = refl;
  }

  back :
      (k : ℕ) (b : List ℕ)
      → tcp_checksum_ok (half k).local_ip (half k).remote_ip b ≡ true
      → tcp_checksum_ok c.remote_ip c.local_ip b ≡ true
  unfolding accepting
  back k b ok = ap (λ a. tcp_checksum_ok a c.local_ip b) (sym ip) ∙ ok

  forth :
      (k k' : ℕ) (b : List ℕ)
      → tcp_checksum_ok (client k k').local_ip (client k k').remote_ip b ≡ true
      → tcp_checksum_ok c.local_ip c.remote_ip b ≡ true
  unfolding answering tcp_arm_rto
  forth k k' b ok = ok

  all_steps :
      (x : SynArrives c tcp_syn) (y : SynArrives (half x.1) 18)
      → Arrives (client x.1 y.1) tcp_ack []
      → Shakes t0 t1 t2 t3 seq other behind c l
  all_steps (m1, k1, e1, ok1, r1, len1, opt1) (m2, k2, e2, ok2, r2, len2, opt2)
        (m3, k3, e3, dst3, ok3, r3, rest3) =
      (
        m1,
        m2,
        m3,
        after_control t1 (half k1),
        client k1 k2,
        server k1 k2 k3,
        e1,
        ok1,
        first_step k1 m1.bytes r1 len1 opt1
            ∙ ap (λ o. (o, after_control t1 (half k1), add32 seq 64000)) e2,
        back k1 m2.bytes ok2,
        second_step k1 k2 m2.bytes r2 len2 opt2 ∙ ap (λ o. (o, client k1 k2, other)) e3,
        forth k1 k2 m3.bytes ok3,
        third_step k1 k2 k3 m3.bytes r3,
        ends-Joined k1 k2 k3,
      )

  -- A connection that `tcp_connect` opens, its ports and numbers in their widths, to a host that listens at
  -- that address and port is established on both sides after three segments, whose checksums are accepted,
  -- whatever the initial sequence numbers are: each end then expects what the other one sends next, with
  -- nothing in flight and no timer running.
  pub handshake-Joined : Shakes t0 t1 t2 t3 seq other behind c l
  handshake-Joined = all_steps x y (
      tcp_emit-Arrives (client x.1 y.1) tcp_ack [] (omega arith) tt (
        FitsHeader-header_of (client x.1 y.1) 80 tcp_ack (client-Numbers x.1 y.1) (omega arith)
          (omega arith)))
    where
      x : SynArrives c tcp_syn
      x = tcp_emit_syn-SynArrives c tcp_syn n (omega arith)

      y : SynArrives (half x.1) 18
      y = tcp_emit_syn-SynArrives (half x.1) 18 (half-Numbers x.1) (omega arith)
