-- ===== src/Tcp/Accept.antt =====
-- The three handlers of kernel/drivers/net/tcp.c that the handshake runs through: LISTEN, SYN_SENT and
-- SYN_RECEIVED.
use stink_os.Base.{ℕ, ◌*◌, ◌^◌, ◌≡◌, ◌∙◌, refl, ap, List, [], true, add32, ◌==◌}
use stink_os.Tcp.{Tcb, listen, syn_sent, syn_received, established}
use stink_os.Tcp.Segment.{Header, tcp_ack, tcp_emit, tcp_emit_syn}
use stink_os.Tcp.Output.{after_control}
use stink_os.Tcp.Input.{
  tcp_apply_wscale, learn_options, handle_conn, handle_state, handle_listen, handle_syn_sent,
  handle_syn_received, syn_accepted, keep_seq,
}
use stink_os.Tcp.Syn.{IsSyn, learn_options-Syn}

-- The connection that the SYN makes of the listening slot.
unfoldable pub accepting : ℕ → ℕ → ℕ → Header → Tcb → Tcb
accepting now src seq h l = record l {
  remote_ip = src;
  remote_port = h.src_port;
  snd_una = seq;
  snd_nxt = seq;
  rcv_nxt = add32 h.seq 1;
  last_activity_ticks = now;
  last_keepalive_ticks = 0;
  peer_wscale = 0;
  peer_mss = 1460;
  snd_wnd = h.window * 2 ^ 0;
  state = syn_received;
}

abbrev active : ℕ → Tcb → Tcb
active now t = record t { last_activity_ticks = now; last_keepalive_ticks = 0 }

handle_listen-Syn :
    (now local src seq : ℕ) (h : Header) (p : List ℕ) (t : Tcb)
    → h.flags ≡ 2
    → handle_listen now local src h p seq t ≡ (
      tcp_emit_syn (syn_accepted src seq h p t) 18,
      after_control now (syn_accepted src seq h p t),
      add32 seq 64000,
    )
unfolding handle_listen
handle_listen-Syn now local src seq h p t f = rw f refl

pub handle_conn-listen :
    (now local src seq : ℕ) (h : Header) (p behind : List ℕ) (l : Tcb)
    → l.state ≡ listen
    → h.flags ≡ 2
    → IsSyn h p
    → handle_conn now local src h p behind seq l ≡ (
      tcp_emit_syn (accepting now src seq h l) 18,
      after_control now (accepting now src seq h l),
      add32 seq 64000,
    )
unfolding handle_conn accepting
handle_conn-listen now local src seq h p behind l s f v =
    first
    ∙ handle_listen-Syn now local src seq h p (active now l) f
    ∙ ap
        (λ t.
          let u = record t { snd_wnd = tcp_apply_wscale t h; state = syn_received } in
          (tcp_emit_syn u 18, after_control now u, add32 seq 64000))
        (learn_options-Syn h p
          (record (active now l) {
            remote_ip = src;
            remote_port = h.src_port;
            snd_una = seq;
            snd_nxt = seq;
            rcv_nxt = add32 h.seq 1;
          })
          v)
  where
    first :
        handle_conn now local src h p behind seq l
        ≡ handle_listen now local src h p seq (active now l)
    first = unfold handle_state in rw (f, s) refl

-- The connection that the SYN-ACK makes of the one that was opened.
unfoldable pub answering : ℕ → Header → Tcb → Tcb
answering now h t = record t {
  last_activity_ticks = now;
  last_keepalive_ticks = 0;
  rcv_nxt = add32 h.seq 1;
  snd_una = h.ack;
  peer_wscale = 0;
  peer_mss = 1460;
  snd_wnd = h.window * 2 ^ 0;
  state = established;
  last_seg_ticks = 0;
  retries = 0;
}

pub handle_conn-syn_sent :
    (now local src seq : ℕ) (h : Header) (p behind : List ℕ) (t : Tcb)
    → t.state ≡ syn_sent
    → h.flags ≡ 18
    → (h.ack == t.snd_nxt) ≡ true
    → IsSyn h p
    → handle_conn now local src h p behind seq t
      ≡ (tcp_emit (answering now h t) tcp_ack [], answering now h t, seq)
unfolding handle_conn answering
handle_conn-syn_sent now local src seq h p behind t s f here v =
    first
    ∙ second
    ∙ ap
        (λ u.
          let w = record u {
            snd_wnd = tcp_apply_wscale u h;
            state = established;
            last_seg_ticks = 0;
            retries = 0;
          } in
          (tcp_emit w tcp_ack [], w, seq))
        (learn_options-Syn h p (record (active now t) { rcv_nxt = add32 h.seq 1; snd_una = h.ack })
          v)
  where
    first :
        handle_conn now local src h p behind seq t
        ≡ keep_seq seq (handle_syn_sent h p (active now t))
    first = unfold handle_state in rw (f, s) refl

    second : keep_seq seq (handle_syn_sent h p (active now t)) ≡ (
        let u =
          learn_options h p (record (active now t) { rcv_nxt = add32 h.seq 1; snd_una = h.ack }) in
        let w = record u {
          snd_wnd = tcp_apply_wscale u h;
          state = established;
          last_seg_ticks = 0;
          retries = 0;
        } in
        (tcp_emit w tcp_ack [], w, seq))
    second = unfold handle_syn_sent in rw (f, here) refl

-- The connection that the last ACK makes of the accepting one.
unfoldable pub accepted : ℕ → Header → Tcb → Tcb
accepted now h t = record t {
  last_activity_ticks = now;
  last_keepalive_ticks = 0;
  snd_una = h.ack;
  snd_wnd = h.window * 2 ^ t.peer_wscale;
  state = established;
  last_seg_ticks = 0;
  retries = 0;
}

pub handle_conn-syn_received :
    (now local src seq : ℕ) (h : Header) (p behind : List ℕ) (t : Tcb)
    → t.state ≡ syn_received
    → h.flags ≡ 16
    → (h.ack == t.snd_nxt) ≡ true
    → handle_conn now local src h p behind seq t ≡ ([], accepted now h t, seq)
unfolding handle_conn accepted
handle_conn-syn_received now local src seq h p behind t s f here = first ∙ second
  where
    first :
        handle_conn now local src h p behind seq t
        ≡ keep_seq seq (handle_syn_received local src h (active now t))
    first = unfold handle_state in rw (f, s) refl

    second : keep_seq seq (handle_syn_received local src h (active now t)) ≡ (
      [],
      record (active now t) {
        snd_una = h.ack;
        snd_wnd = tcp_apply_wscale t h;
        state = established;
        last_seg_ticks = 0;
        retries = 0;
      },
      seq,
    )
    second = unfold handle_syn_received in rw (f, here) refl
