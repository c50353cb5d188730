-- ===== src/Tcp/Reorder.antt =====
-- The out-of-order queue of kernel/drivers/net/tcp.c: the loop that drains it, and what is left in it.
use stink_os.Base.{
  ℕ, zero, suc, ◌+◌, ◌≤◌, ◌<◌, ◌≡◌, ◌≢◌, ◌∙◌, inl, inr, refl, ap, subst, some, Bool, true, false,
  ◌||◌, length, get_or, if◌then◌else◌, arith, length-set, Bool-cases, get_or-set_self,
  get_or-set_ne, get_or,
}
use stink_os.Tcp.{
  Tcb, Ooo, no_ooo, ooo_slot, is_parked, tcb_rx_inline, drain_slot, drain_pass, drain_loop,
  tcb_ooo_drain,
}
use stink_os.Tcp.Receive.{IsRing, tcb_rx_inline-Filled}

-- A receive ring and the two slots of the queue.
pub record IsReceiver (t : Tcb) : Type 0 where
  pub ring : IsRing t
  pub slots : length t.ooo ≡ 2

-- What the look at slot `k` does: it takes the segment that is due and frees the slot, or nothing.
data Look (k : ℕ) (t : Tcb) : Bool × Tcb → Type 0 where
  pulled :
      {t' : Tcb}
      → (ooo_slot t k).used ≡ true
      → IsReceiver t'
      → (ooo_slot t' k).used ≡ false
      → ((j : ℕ) → k ≢ j → ooo_slot t' j ≡ ooo_slot t j)
      → Look k t (true, t')
  kept : is_parked t.rcv_nxt (ooo_slot t k) ≡ false → Look k t (false, t)

drain_slot-Look : (k : ℕ) (t : Tcb) → k < 2 → IsReceiver t → Look k t (drain_slot k t)
unfolding drain_slot
drain_slot-Look k t lt v = elim (Bool-cases (is_parked t.rcv_nxt (ooo_slot t k))) [
  | inr e ↦ rw e (kept e)
  | inl e ↦
      let (ring, count, content, next, same) = tcb_rx_inline-Filled (ooo_slot t k).buf t v.ring in
      let t' = (tcb_rx_inline (ooo_slot t k).buf t).1 in
      let s : Ooo = record (ooo_slot t' k) { used = false } in
      let inside : k < length t'.ooo = omega (arith, ap length same, v.slots) in
      rw e (
        pulled (ground arith)
          (record {
            ring = record { sized = ring.sized; head_in = ring.head_in; tail_in = ring.tail_in };
            slots = length-set t'.ooo k s ∙ ap length same ∙ v.slots;
          })
          (ap (λ o. o.used) (get_or-set_self t'.ooo k s no_ooo inside))
          (λ j ne. get_or-set_ne t'.ooo k j s no_ooo ne ∙ ap (λ l. get_or l j no_ooo) same))
]

-- The slots in use.
abbrev bit : Bool → ℕ
bit b = if b then 1 else 0

abbrev used_slots : Tcb → ℕ
used_slots t = bit (ooo_slot t 0).used + bit (ooo_slot t 1).used

-- Freeing one slot leaves fewer in use.
module _ (t t' : Tcb) where
  freed_first :
      (ooo_slot t 0).used ≡ true
      → (ooo_slot t' 0).used ≡ false
      → ooo_slot t' 1 ≡ ooo_slot t 1
      → used_slots t' < used_slots t
  freed_first was now same =
      let rest : bit (ooo_slot t' 1).used ≡ bit (ooo_slot t 1).used = ap (λ o. bit o.used) same in
      omega (arith, ap bit was, ap bit now, rest)

  freed_second :
      (ooo_slot t 1).used ≡ true
      → (ooo_slot t' 1).used ≡ false
      → ooo_slot t' 0 ≡ ooo_slot t 0
      → used_slots t' < used_slots t
  freed_second was now same =
      let rest : bit (ooo_slot t' 0).used ≡ bit (ooo_slot t 0).used = ap (λ o. bit o.used) same in
      omega (arith, ap bit was, ap bit now, rest)

-- No parked segment is due.
pub record IsQuiet (t : Tcb) : Type 0 where
  pub first : is_parked t.rcv_nxt (ooo_slot t 0) ≡ false
  pub second : is_parked t.rcv_nxt (ooo_slot t 1) ≡ false

data Pass (t : Tcb) : Bool × Tcb → Type 0 where
  progress : {t' : Tcb} → IsReceiver t' → used_slots t' < used_slots t → Pass t (true, t')
  done : IsQuiet t → Pass t (false, t)

drain_pass-Pass : (t : Tcb) → IsReceiver t → Pass t (drain_pass t)
unfolding drain_pass
drain_pass-Pass t v = first (drain_slot 0 t) (drain_slot-Look 0 t (omega arith) v)
  where
    second_done :
        (t1 : Tcb) (r : Bool × Tcb)
        → IsReceiver t1
        → used_slots t1 < used_slots t
        → Look 1 t1 r
        → Pass t (true || r.0, r.1)
    second_done t1 r v1 less (pulled was v2 now others) =
        progress v2
          (omega (arith, less, freed_second t1 r.1 was now (others 0 (λ e. omega (arith, e)))))
    second_done t1 r v1 less (kept e) = progress v1 less

    second_only :
        (r : Bool × Tcb)
        → is_parked t.rcv_nxt (ooo_slot t 0) ≡ false
        → Look 1 t r
        → Pass t (false || r.0, r.1)
    second_only r quiet (pulled was v2 now others) =
        progress v2 (freed_second t r.1 was now (others 0 (λ e. omega (arith, e))))
    second_only r quiet (kept e) = done (record { first = quiet; second = e })

    first : (a : Bool × Tcb) → Look 0 t a → let b = drain_slot 1 a.1 in Pass t (a.0 || b.0, b.1)
    first a (pulled {t'} was v1 now others) =
        second_done t' (drain_slot 1 t') v1
          (freed_first t t' was now (others 1 (λ e. omega (arith, e))))
          (drain_slot-Look 1 t' (omega arith) v1)
    first a (kept e) = second_only (drain_slot 1 t) e (drain_slot-Look 1 t (omega arith) v)

-- With more rounds than slots in use the loop ends, and what it leaves is not due.
drain_loop-IsQuiet :
    (fuel : ℕ) (t : Tcb)
    → IsReceiver t
    → used_slots t < fuel
    → (t' : Tcb) × (drain_loop fuel t ≡ some t') × IsReceiver t' × IsQuiet t'
unfolding drain_loop
drain_loop-IsQuiet zero t v lt = absurd (omega arith)
drain_loop-IsQuiet (suc fuel) t v lt =
    ended (drain_pass t) (drain_pass-Pass t v)
      (λ u v' less. drain_loop-IsQuiet fuel u v' (omega arith))
  where
    ended :
        (r : Bool × Tcb)
        → Pass t r
        → ((u : Tcb)
            → IsReceiver u
            → used_slots u < used_slots t
            → (t' : Tcb) × (drain_loop fuel u ≡ some t') × IsReceiver t' × IsQuiet t')
        → (t' : Tcb) × ((if r.0 then drain_loop fuel r.1 else some r.1) ≡ some t')
          × IsReceiver t'
          × IsQuiet t'
    ended r (progress {t'} v' less) again = again t' v' less
    ended r (done quiet) again = (t, refl, v, quiet)

used_slots-lt : (t : Tcb) → used_slots t < 3
used_slots-lt t = omega (arith, bit-le (ooo_slot t 0).used, bit-le (ooo_slot t 1).used)
  where
    bit-le : (b : Bool) → bit b ≤ 1
    bit-le true = omega arith
    bit-le false = omega arith

-- The loop of `tcb_ooo_drain` ends within three passes, whatever is parked and however the segments chain
-- into each other; no segment whose turn has come is left in the queue, and the ring and the queue stay
-- well-formed.
pub tcb_ooo_drain-IsQuiet :
    (t : Tcb)
    → IsReceiver t
    → (drain_loop 3 t ≡ some (tcb_ooo_drain t))
      × IsReceiver (tcb_ooo_drain t)
      × IsQuiet (tcb_ooo_drain t)
unfolding tcb_ooo_drain
tcb_ooo_drain-IsQuiet t v =
    let (t', e, v', quiet) = drain_loop-IsQuiet 3 t v (used_slots-lt t) in
    let same : t' ≡ tcb_ooo_drain t = rw (e, tcb_ooo_drain) refl in
    (e ∙ ap some same, subst IsReceiver same v', subst IsQuiet same quiet)
