-- ===== src/Tcp/Swapped.antt =====
-- Two segments for kernel/drivers/net/tcp.c that arrive in the wrong order.
use stink_os.Base.{
  ℕ, suc, ◌+◌, ◌≤◌, ◌<◌, ◌^◌, ◌≡◌, ◌∙◌, refl, sym, ap, subst, List, ◌++◌, none, some, Bool, true,
  false, ◌||◌, length, set, get_or, if◌then◌else◌, arith, length-set, get_or-set_self,
  get_or-set_ne, get_or, add32, append_assoc,
}
use stink_os.Tcp.{
  Tcb, Ooo, no_ooo, ooo_slot, is_parked, tcb_rx_inline, tcb_rx_wnd, tcb_ooo_park, park_at,
  drain_slot, drain_pass, drain_loop, tcb_ooo_drain, tcp_mss,
}
use stink_os.Tcp.Receive.{IsRing, rx_content, tcb_rx_inline-Inlined}
use stink_os.Tcp.Reorder.{IsReceiver}

pub drain_slot_skip :
    (k : ℕ) (t : Tcb) → is_parked t.rcv_nxt (ooo_slot t k) ≡ false → drain_slot k t ≡ (false, t)
unfolding drain_slot
drain_slot_skip k t e = rw e refl

-- The connection after slot `k` was taken.
abbrev taken : ℕ → Tcb → Tcb
taken k t =
    let t' = (tcb_rx_inline (ooo_slot t k).buf t).1 in
    record t' { ooo = set t'.ooo k (record (ooo_slot t' k) { used = false }) }

drain_slot_due :
    (k : ℕ) (t : Tcb)
    → is_parked t.rcv_nxt (ooo_slot t k) ≡ true
    → drain_slot k t ≡ (true, taken k t)
unfolding drain_slot
drain_slot_due k t e = rw e refl

abbrev pub IsFree : ℕ → Tcb → Type 0
IsFree k t = (ooo_slot t k).used ≡ false

pub free-skip : (k : ℕ) (t : Tcb) → IsFree k t → is_parked t.rcv_nxt (ooo_slot t k) ≡ false
free-skip k t e = rw e refl

pub drain_pass_lem :
    (t u w : Tcb) (p q : Bool)
    → drain_slot 0 t ≡ (p, u)
    → drain_slot 1 u ≡ (q, w)
    → drain_pass t ≡ (p || q, w)
unfolding drain_pass
drain_pass_lem t u w p q first second =
    ap (λ a. (a.0 || (drain_slot 1 a.1).0, (drain_slot 1 a.1).1)) first
    ∙ ap (λ b. (p || b.0, b.1)) second

drain_loop_more :
    (fuel : ℕ) (t u : Tcb) → drain_pass t ≡ (true, u) → drain_loop (suc fuel) t ≡ drain_loop fuel u
unfolding drain_loop
drain_loop_more fuel t u e = ap (λ r. if r.0 then drain_loop fuel r.1 else some r.1) e

pub drain_loop_last :
    (fuel : ℕ) (t u : Tcb) → drain_pass t ≡ (false, u) → drain_loop (suc fuel) t ≡ some u
unfolding drain_loop
drain_loop_last fuel t u e = ap (λ r. if r.0 then drain_loop fuel r.1 else some r.1) e

-- With one due segment in slot 0 and nothing in slot 1, the drain takes that segment and ends.
drain_one :
    (t : Tcb)
    → is_parked t.rcv_nxt (ooo_slot t 0) ≡ true
    → IsFree 1 (taken 0 t)
    → IsFree 0 (taken 0 t)
    → tcb_ooo_drain t ≡ taken 0 t
unfolding tcb_ooo_drain
drain_one t due free1 free0 =
    let u = taken 0 t in
    let first : drain_slot 0 t ≡ (true, u) = drain_slot_due 0 t due in
    let second : drain_slot 1 u ≡ (false, u) = drain_slot_skip 1 u (free-skip 1 u free1) in
    let third : drain_slot 0 u ≡ (false, u) = drain_slot_skip 0 u (free-skip 0 u free0) in
    let all : drain_loop 3 t ≡ some u =
      drain_loop_more 2 t u (drain_pass_lem t u u true false first second)
      ∙ drain_loop_last 1 u u (drain_pass_lem u u u false false third second) in
    ap (λ o. elim o as (λ _. Tcb) [ none ↦ t | some t' ↦ t' ]) all

park_free :
    (seq : ℕ) (b : List ℕ) (t : Tcb)
    → IsFree 0 t
    → IsFree 1 t
    → 0 < length b
    → length b ≤ tcp_mss
    → tcb_ooo_park seq b t ≡ park_at 0 seq b t
unfolding tcb_ooo_park
park_free seq b t free0 free1 some_b small = ground arith

same-parked :
    (seq : ℕ) (b : List ℕ) → is_parked seq (record { used = true; seq = seq; buf = b }) ≡ true
same-parked seq b = ground arith

-- The queue is no part of the ring.
taken_content : (t : Tcb) (l : List Ooo) → rx_content (record t { ooo = l }) ≡ rx_content t
unfolding rx_content
taken_content t l = refl

park_content : (seq : ℕ) (b : List ℕ) (t : Tcb) → rx_content (park_at 0 seq b t) ≡ rx_content t
unfolding rx_content
park_content seq b t = refl

drain_parked :
    (a b : List ℕ) (t : Tcb)
    → IsReceiver t
    → IsFree 1 t
    → length a + length b ≤ tcb_rx_wnd t
    → let u = tcb_ooo_drain (tcb_rx_inline a (park_at 0 (add32 t.rcv_nxt (length a)) b t)).1 in
      (rx_content u ≡ rx_content t ++ (a ++ b))
      × (u.rcv_nxt ≡ add32 t.rcv_nxt (length a + length b))
      × IsFree 0 u
      × IsFree 1 u
drain_parked a b t v free1 room =
    let seq = add32 t.rcv_nxt (length a) in
    let e = park_at 0 seq b t in
    let s : Ooo = record { used = true; seq = seq; buf = b } in
    let ring : IsRing e = record {
      sized = v.ring.sized;
      head_in = v.ring.head_in;
      tail_in = v.ring.tail_in;
    } in
    let same_window : tcb_rx_wnd e ≡ tcb_rx_wnd t = unfold tcb_rx_wnd in refl in
    let f = tcb_rx_inline-Inlined a e ring (omega (arith, same_window)) in
    let x = (tcb_rx_inline a e).1 in
    let slot0 : ooo_slot x 0 ≡ s =
      ap (λ l. get_or l 0 no_ooo) f.same_ooo
      ∙ get_or-set_self t.ooo 0 s no_ooo (omega (arith, v.slots)) in
    let slot1 : ooo_slot x 1 ≡ ooo_slot t 1 =
      ap (λ l. get_or l 1 no_ooo) f.same_ooo
      ∙ get_or-set_ne t.ooo 0 1 s no_ooo (λ q. omega (arith, q)) in
    let g =
      tcb_rx_inline-Inlined (ooo_slot x 0).buf x f.ring
        (omega (arith, ap (λ o. length o.buf) slot0, f.window_left, same_window)) in
    let y = (tcb_rx_inline (ooo_slot x 0).buf x).1 in
    let due : is_parked x.rcv_nxt (ooo_slot x 0) ≡ true =
      ap (is_parked x.rcv_nxt) slot0 ∙ ap (λ n. is_parked n s) f.next ∙ same-parked seq b in
    let two : length y.ooo ≡ 2 =
      ap length (g.same_ooo ∙ f.same_ooo) ∙ length-set t.ooo 0 s ∙ v.slots in
    let empty : Ooo = record (ooo_slot y 0) { used = false } in
    let now0 : IsFree 0 (taken 0 x) =
      ap (λ o. o.used) (get_or-set_self y.ooo 0 empty no_ooo (omega (arith, two))) in
    let now1 : IsFree 1 (taken 0 x) =
      ap (λ o. o.used)
        (get_or-set_ne y.ooo 0 1 empty no_ooo (λ q. omega (arith, q))
          ∙ ap (λ l. get_or l 1 no_ooo) g.same_ooo
          ∙ slot1)
      ∙ free1 in
    let content : rx_content (taken 0 x) ≡ rx_content t ++ (a ++ b) =
      taken_content y (set y.ooo 0 empty)
      ∙ g.content
      ∙ ap (λ o. rx_content x ++ o.buf) slot0
      ∙ ap (λ l. l ++ b) (f.content ∙ ap (λ l. l ++ a) (park_content seq b t))
      ∙ append_assoc (rx_content t) a b in
    let next : y.rcv_nxt ≡ add32 t.rcv_nxt (length a + length b) =
      omega (arith, g.next, f.next, ap (λ o. length o.buf) slot0) in
    subst
      (λ u.
        (rx_content u ≡ rx_content t ++ (a ++ b))
        × (u.rcv_nxt ≡ add32 t.rcv_nxt (length a + length b))
        × IsFree 0 u
        × IsFree 1 u)
      (sym (drain_one x due now1 now0)) (content, next, now0, now1)

-- A segment that comes too early and then the one before it, at a well-formed receiver: when the early one
-- has at least a byte and no more than TCP_MSS bytes, both fit the free space of the ring, and the queue is
-- empty, the ring has the bytes of both in the order of the stream, the next sequence number is behind
-- both, and nothing is parked any more.
pub swapped-InOrder :
    (a b : List ℕ) (t : Tcb)
    → IsReceiver t
    → IsFree 0 t
    → IsFree 1 t
    → t.rcv_nxt < 2 ^ 32
    → 0 < length b
    → length b ≤ tcp_mss
    → length a + length b ≤ tcb_rx_wnd t
    → let early = tcb_ooo_park (add32 t.rcv_nxt (length a)) b t in
      let u = tcb_ooo_drain (tcb_rx_inline a early).1 in
      (rx_content u ≡ rx_content t ++ (a ++ b))
      × (u.rcv_nxt ≡ add32 t.rcv_nxt (length a + length b))
      × IsFree 0 u
      × IsFree 1 u
swapped-InOrder a b t v free0 free1 lt some_b small room =
    let seq = add32 t.rcv_nxt (length a) in
    let e = park_at 0 seq b t in
    let parked : tcb_ooo_park seq b t ≡ e = park_free seq b t free0 free1 some_b small in
    subst
      (λ p.
        let u = tcb_ooo_drain (tcb_rx_inline a p).1 in
        (rx_content u ≡ rx_content t ++ (a ++ b))
        × (u.rcv_nxt ≡ add32 t.rcv_nxt (length a + length b))
        × IsFree 0 u
        × IsFree 1 u)
      (sym parked) (drain_parked a b t v free1 room)
