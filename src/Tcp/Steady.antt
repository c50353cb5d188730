-- ===== src/Tcp/Steady.antt =====
-- The state of a connection under the operations of kernel/drivers/net/tcp.c that are not a transition.
use stink_os.Base.{
  ℕ, zero, suc, ◌+◌, ◌%◌, ◌≡◌, ◌∙◌, inl, inr, refl, sym, ap, List, [], ◌∷◌, Option, none, some,
  ◌&&◌, length, ◌==◌, ltb, leb, arith, Bool-cases, Option-cases, sub32, set,
}
use mathlib.Core.Option.{some-injective}
use stink_os.Tcp.{
  Tcb, rx_fill, tcb_rx_inline, tcb_ooo_park, tcb_ooo_drain, drain_slot, drain_pass, drain_loop,
  is_parked, ooo_slot, tcp_arm_rto, tx_pending, tcp_buffer_size,
}
use stink_os.Tcp.Input.{
  handle_ack, handle_data, note_sack, note_dup_ack, ack_advanced, learn_options, is_ahead, carried,
}
use stink_os.Tcp.Output.{
  tcp_drain_tx, drain_tx_loop, drained, arm_persist, drain_chunk, is_shut, can_send,
}
use stink_os.Tcp.Segment.{Header, Sent}

rx_fill-state : (bytes : List ℕ) (t : Tcb) → (rx_fill bytes t).1.state ≡ t.state
unfolding rx_fill
rx_fill-state [] t = refl
rx_fill-state (b ∷ bytes) t = elim (Bool-cases ((t.rx_tail + 1) % tcp_buffer_size == t.rx_head)) [
  | inl e ↦ rw e refl
  | inr e ↦ rw e (
      rx_fill-state bytes (record t {
        rx_buf = set t.rx_buf t.rx_tail b;
        rx_tail = (t.rx_tail + 1) % tcp_buffer_size;
      }))
]

drain_slot-state : (k : ℕ) (t : Tcb) → (drain_slot k t).1.state ≡ t.state
unfolding drain_slot tcb_rx_inline
drain_slot-state k t = elim (Bool-cases (is_parked t.rcv_nxt (ooo_slot t k))) [
  | inl e ↦ rw e (rx_fill-state (ooo_slot t k).buf t)
  | inr e ↦ rw e refl
]

drain_pass-state : (t : Tcb) → (drain_pass t).1.state ≡ t.state
unfolding drain_pass
drain_pass-state t = drain_slot-state 1 (drain_slot 0 t).1 ∙ drain_slot-state 0 t

drain_loop-state : (fuel : ℕ) (t t' : Tcb) → drain_loop fuel t ≡ some t' → t'.state ≡ t.state
unfolding drain_loop
drain_loop-state zero t t' e = cc
drain_loop-state (suc fuel) t t' e = elim (Bool-cases (drain_pass t).0) [
  | inl p ↦ drain_loop-state fuel (drain_pass t).1 t' (rw p at e) ∙ drain_pass-state t
  | inr p ↦ sym (ap (λ u. u.state) (some-injective _ _ (rw p at e))) ∙ drain_pass-state t
]

tcb_ooo_drain-state : (t : Tcb) → (tcb_ooo_drain t).state ≡ t.state
unfolding tcb_ooo_drain
tcb_ooo_drain-state t = elim (Option-cases (drain_loop 3 t)) [
  | inl e ↦ rw (e, tcb_ooo_drain) refl
  | inr (u, e) ↦ rw (e, tcb_ooo_drain) (drain_loop-state 3 t u e)
]

tcb_ooo_park-state :
    (seq : ℕ) (bytes : List ℕ) (t : Tcb) → (tcb_ooo_park seq bytes t).state ≡ t.state
unfolding tcb_ooo_park
tcb_ooo_park-state seq bytes t = ground arith

drained-state : (now chunk : ℕ) (t : Tcb) → (drained now chunk t).state ≡ t.state
unfolding drained tcp_arm_rto
drained-state now chunk t = ground arith

arm_persist-state : (now : ℕ) (t : Tcb) → (arm_persist now t).state ≡ t.state
unfolding arm_persist
arm_persist-state now t = ground arith

drain_tx_loop-state :
    (fuel now : ℕ) (t : Tcb) (r : List Sent × Tcb)
    → drain_tx_loop fuel now t ≡ some r
    → r.1.state ≡ t.state
unfolding drain_tx_loop
drain_tx_loop-state zero now t r e = cc
drain_tx_loop-state (suc fuel) now t r e = elim (Bool-cases (tx_pending t == 0)) [
  | inl e1 ↦ ap (λ x. x.1.state) (sym (some-injective _ _ (rw e1 at e)))
  | inr e1 ↦ elim (Bool-cases (is_shut t)) [
    | inl e2 ↦
        ap (λ x. x.1.state) (sym (some-injective _ _ (rw (e1, e2) at e))) ∙ arm_persist-state now t
    | inr e2 ↦ elim (Bool-cases (drain_chunk t == 0)) [
      | inl e3 ↦ ap (λ x. x.1.state) (sym (some-injective _ _ (rw (e1, e2, e3) at e)))
      | inr e3 ↦ elim (Option-cases (drain_tx_loop fuel now (drained now (drain_chunk t) t))) [
        | inl none_left ↦
            let bad : ◌≡◌ {A = Option (List Sent × Tcb)} none (some r) =
              rw (e1, e2, e3, none_left) at e in
            cc
        | inr (q, run) ↦
            ap (λ x. x.1.state) (sym (some-injective _ _ (rw (e1, e2, e3, run) at e)))
            ∙ drain_tx_loop-state fuel now (drained now (drain_chunk t) t) q run
            ∙ drained-state now (drain_chunk t) t
      ]
    ]
  ]
]

pub tcp_drain_tx-state : (now : ℕ) (t : Tcb) → (tcp_drain_tx now t).1.state ≡ t.state
unfolding tcp_drain_tx
tcp_drain_tx-state now t = elim (Bool-cases (can_send t.state)) [
  | inr shut ↦ rw shut refl
  | inl open_state ↦ elim (Option-cases (drain_tx_loop (t.cwnd + 1) now t)) [
    | inl e ↦ rw (open_state, e) refl
    | inr (r, e) ↦ rw (open_state, e) (drain_tx_loop-state (t.cwnd + 1) now t r e)
  ]
]

pub learn_options-state :
    (h : Header) (payload : List ℕ) (t : Tcb) → (learn_options h payload t).state ≡ t.state
unfolding learn_options
learn_options-state h payload t = ground arith

note_dup_ack-state :
    (acked flying n : ℕ) (t : Tcb) → (note_dup_ack acked flying n t).1.state ≡ t.state
unfolding note_dup_ack
note_dup_ack-state acked flying n t = ground arith

note_sack-state :
    (h : Header) (payload behind : List ℕ) (t : Tcb)
    → (note_sack h payload behind t).state ≡ t.state
unfolding note_sack
note_sack-state h payload behind t = refl

ack_advanced-state : (h : Header) (acked : ℕ) (t : Tcb) → (ack_advanced h acked t).state ≡ t.state
unfolding ack_advanced
ack_advanced-state h acked t = refl

pub handle_ack-state :
    (now : ℕ) (h : Header) (payload behind : List ℕ) (t : Tcb)
    → (handle_ack now h payload behind t).1.state ≡ t.state
unfolding handle_ack
handle_ack-state now h payload behind t =
    let acked = sub32 h.ack t.snd_una in
    let flying = sub32 t.snd_nxt t.snd_una in
    let noted = note_sack h payload behind t in
    let r = note_dup_ack acked flying (carried h payload) noted in
    let kept =
      note_dup_ack-state acked flying (carried h payload) noted
      ∙ note_sack-state h payload behind t in
    elim (Bool-cases (ltb 0 acked && leb acked flying)) [
      | inl e ↦ rw e (
          tcp_drain_tx-state now (ack_advanced h acked r.1) ∙ ack_advanced-state h acked r.1 ∙ kept)
      | inr e ↦ rw e kept
    ]

pub handle_data-state :
    (h : Header) (bytes : List ℕ) (t : Tcb) → (handle_data h bytes t).1.state ≡ t.state
unfolding handle_data
handle_data-state h bytes t = elim (Bool-cases (length bytes == 0)) [
  | inl e ↦ rw e refl
  | inr e ↦ elim (Bool-cases (h.seq == t.rcv_nxt)) [
    | inl e2 ↦
        rw (e, e2)
          (tcb_ooo_drain-state (tcb_rx_inline bytes t).1
            ∙ unfold tcb_rx_inline in rx_fill-state bytes t)
    | inr e2 ↦ elim (Bool-cases (is_ahead h.seq t.rcv_nxt)) [
      | inl e3 ↦ rw (e, e2, e3) (tcb_ooo_park-state h.seq bytes t)
      | inr e3 ↦ rw (e, e2, e3) refl
    ]
  ]
]
