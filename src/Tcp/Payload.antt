-- ===== src/Tcp/Payload.antt =====
-- The data of a segment of kernel/drivers/net/tcp.c: what an in-order segment delivers, and what a segment
-- without data delivers when it has options.
use stink_os.Base.{
  ℕ, ◌+◌, ◌-◌, ◌≤◌, ◌<◌, ◌≡◌, ◌∙◌, refl, sym, ap, List, [], ◌++◌, none, some, true, false, length,
  drop, ◌==◌, arith, add32, get_or, length-drop,
}
use stink_os.Tcp.{Tcb, no_ooo, tcb_rx_inline, tcb_rx_wnd, tcb_ooo_drain, drain_loop}
use stink_os.Tcp.Input.{handle_data, segment_data, data_offset, data_start}
use stink_os.Tcp.Receive.{rx_content, tcb_rx_inline-Inlined}
use stink_os.Tcp.Reorder.{IsReceiver}
use stink_os.Tcp.Segment.{Header, tcp_emit, tcp_emit_sack_ack, tcp_ack}
use stink_os.Tcp.Swapped.{IsFree, drain_slot_skip, free-skip, drain_pass_lem, drain_loop_last}

-- With nothing parked the drain does nothing.
drain_none : (t : Tcb) → IsFree 0 t → IsFree 1 t → tcb_ooo_drain t ≡ t
unfolding tcb_ooo_drain
drain_none t free0 free1 =
    let a = drain_slot_skip 0 t (free-skip 0 t free0) in
    let b = drain_slot_skip 1 t (free-skip 1 t free1) in
    let all : drain_loop 3 t ≡ some t =
      drain_loop_last 2 t t (drain_pass_lem t t t false false a b) in
    ap (λ o. elim o as (λ _. Tcb) [ none ↦ t | some t' ↦ t' ]) all

-- With nothing parked the acknowledgement has no SACK blocks.
tcp_emit_sack_ack_plain :
    (t : Tcb) → IsFree 0 t → IsFree 1 t → tcp_emit_sack_ack t ≡ tcp_emit t tcp_ack []
unfolding tcp_emit_sack_ack
tcp_emit_sack_ack_plain t free0 free1 = rw (free0, free1) refl

-- A segment at the next sequence number that fits the window, with nothing parked: its data is appended to
-- the bytes that wait, the next sequence number moves behind it, and an ACK with that number is sent.
pub handle_data-InOrder :
    (h : Header) (bytes : List ℕ) (t : Tcb)
    → IsReceiver t
    → IsFree 0 t
    → IsFree 1 t
    → h.seq ≡ t.rcv_nxt
    → 0 < length bytes
    → length bytes ≤ tcb_rx_wnd t
    → (rx_content (handle_data h bytes t).1 ≡ rx_content t ++ bytes)
      × ((handle_data h bytes t).1.rcv_nxt ≡ add32 t.rcv_nxt (length bytes))
      × ((handle_data h bytes t).0 ≡ tcp_emit (handle_data h bytes t).1 tcp_ack [])
handle_data-InOrder h bytes t v free0 free1 here some_bytes fits =
    let f = tcb_rx_inline-Inlined bytes t v.ring fits in
    let x = (tcb_rx_inline bytes t).1 in
    let x0 : IsFree 0 x = ap (λ l. (get_or l 0 no_ooo).used) f.same_ooo ∙ free0 in
    let x1 : IsFree 1 x = ap (λ l. (get_or l 1 no_ooo).used) f.same_ooo ∙ free1 in
    let quiet : tcb_ooo_drain x ≡ x = drain_none x x0 x1 in
    let step : handle_data h bytes t ≡ (tcp_emit x tcp_ack [], x) =
      handled h bytes t (ground arith) (ground arith)
      ∙ ap (λ u. (tcp_emit_sack_ack u, u)) quiet
      ∙ ap (λ o. (o, x)) (tcp_emit_sack_ack_plain x x0 x1) in
    (
      ap (λ r. rx_content r.1) step ∙ f.content,
      ap (λ r. r.1.rcv_nxt) step ∙ f.next,
      ap (λ r. r.0) step ∙ ap (λ r. tcp_emit r.1 tcp_ack []) (sym step),
    )
  where
    handled :
        (h : Header) (bytes : List ℕ) (t : Tcb)
        → (length bytes == 0) ≡ false
        → (h.seq == t.rcv_nxt) ≡ true
        → handle_data h bytes t ≡ (
          tcp_emit_sack_ack (tcb_ooo_drain (tcb_rx_inline bytes t).1),
          tcb_ooo_drain (tcb_rx_inline bytes t).1,
        )
    handled h bytes t e e2 = unfold handle_data in rw (e, e2) refl

-- A segment with options and no data, as an ACK with a SACK option is, at a well-formed receiver: its
-- header ends exactly at its end. When it stands at the next sequence number expected, nothing is parked,
-- and its options fit the window, the bytes of its options are appended to those that wait for the process,
-- the next sequence number moves behind them, and an ACK with that number is sent.
pub options-delivered :
    (h : Header) (payload : List ℕ) (t : Tcb)
    → IsReceiver t
    → IsFree 0 t
    → IsFree 1 t
    → h.seq ≡ t.rcv_nxt
    → data_offset h ≡ length payload
    → 20 < length payload
    → length payload ≤ tcb_rx_wnd t + 20
    → (rx_content (handle_data h (segment_data h payload) t).1 ≡ rx_content t ++ drop 20 payload)
      × ((handle_data h (segment_data h payload) t).1.rcv_nxt
          ≡ add32 t.rcv_nxt (length payload - 20))
      × ((handle_data h (segment_data h payload) t).0
          ≡ tcp_emit (handle_data h (segment_data h payload) t).1 tcp_ack [])
options-delivered h payload t v free0 free1 here ends options fits =
    let start : data_start h payload ≡ 20 = ground arith in
    let bytes : segment_data h payload ≡ drop 20 payload = ap (λ n. drop n payload) start in
    let len : length (segment_data h payload) ≡ length payload - 20 =
      ap length bytes ∙ length-drop 20 payload in
    let (content, next, ack) =
      handle_data-InOrder h (segment_data h payload) t v free0 free1 here (omega (arith, len))
        (omega (arith, len)) in
    (content ∙ ap (λ b. rx_content t ++ b) bytes, next ∙ ap (add32 t.rcv_nxt) len, ack)
