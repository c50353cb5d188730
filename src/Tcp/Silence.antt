-- ===== src/Tcp/Silence.antt =====
-- The timer of kernel/drivers/net/tcp.c for a connection whose peer stays silent.
use stink_os.Base.{
  ℕ, ◌+◌, ◌≤◌, ◌<◌, ◌≡◌, ◌≢◌, ◌∙◌, inl, inr, refl, sym, ap, subst, List, [], ◌∷◌, Bool, true, false,
  not, ◌&&◌, length, leb, ltb, ◌==◌, if◌then◌else◌, sub32, arith, Bool-cases,
}
use stink_os.Tcp.{Tcb, TcpState, closed, time_wait, tcp_max_retries}
use stink_os.Tcp.Input.{dropped_tcb}
use stink_os.Tcp.Segment.{Sent}
use stink_os.Tcp.Tick.{
  tick_keepalive, tick_persist, tick_retransmit, tick_tcb, backed_off, is_idle, is_persist_due,
  is_time_wait, has_expired,
}

-- The connection after the ticks of the timer at the given times, with nothing from the peer between them.
unfoldable pub silence : List ℕ → Tcb → Tcb
silence [] t = t
silence (now ∷ l) t = silence l (tick_tcb now t).1

-- Each tick comes when the timeout has passed, by a clock that does not show 0.
unfoldable pub Expiring : List ℕ → Tcb → Type 0
Expiring [] t = Unit {0}
Expiring (now ∷ l) t =
    (now ≢ 0) × (t.rto_ticks ≤ sub32 now t.last_seg_ticks) × Expiring l (tick_tcb now t).1

-- A connection whose timer runs for bytes that the peer has not acknowledged.
pub record Unanswered (t : Tcb) : Type 0 where
  pub used : t.in_use ≡ true
  pub not_waiting : t.state ≢ time_wait
  pub running : t.last_seg_ticks ≢ 0
  pub flying : t.snd_una ≢ t.snd_nxt
  pub few : t.retries ≤ tcp_max_retries

-- What the retransmission timer looks at is the same in both.
record Alike (t u : Tcb) : Type 0 where
  used : u.in_use ≡ t.in_use
  state : u.state ≡ t.state
  una : u.snd_una ≡ t.snd_una
  nxt : u.snd_nxt ≡ t.snd_nxt
  running : u.last_seg_ticks ≡ t.last_seg_ticks
  rto : u.rto_ticks ≡ t.rto_ticks
  retries : u.retries ≡ t.retries

-- The connection when a tick comes to its retransmission timer.
at_timer : ℕ → Tcb → Tcb
at_timer now t = (tick_persist now (tick_keepalive now t).1).1

keepalive-Alike : (now : ℕ) (t : Tcb) → Alike t (tick_keepalive now t).1
unfolding tick_keepalive
keepalive-Alike now t = elim (Bool-cases (is_idle now t)) [
  | inl e ↦ rw e (record {
    used = refl;
    state = refl;
    una = refl;
    nxt = refl;
    running = refl;
    rto = refl;
    retries = refl;
  })
  | inr e ↦ rw e (record {
    used = refl;
    state = refl;
    una = refl;
    nxt = refl;
    running = refl;
    rto = refl;
    retries = refl;
  })
]

persist-Alike : (now : ℕ) (t u : Tcb) → Alike t u → Alike t (tick_persist now u).1
unfolding tick_persist
persist-Alike now t u a = elim (Bool-cases (is_persist_due now u)) [
  | inl e ↦ rw e (record {
    used = a.used;
    state = a.state;
    una = a.una;
    nxt = a.nxt;
    running = a.running;
    rto = a.rto;
    retries = a.retries;
  })
  | inr e ↦ rw e a
]

at_timer-Alike : (now : ℕ) (t : Tcb) → Alike t (at_timer now t)
unfolding at_timer
at_timer-Alike now t = persist-Alike now t (tick_keepalive now t).1 (keepalive-Alike now t)

-- A connection in use that is not in TIME_WAIT comes to its retransmission timer.
tick_tcb_live :
    (now : ℕ) (t : Tcb)
    → t.in_use ≡ true
    → t.state ≢ time_wait
    → (tick_tcb now t).1 ≡ (tick_retransmit now (at_timer now t)).1
unfolding tick_tcb at_timer
tick_tcb_live now t used live =
    let fresh : has_expired now (tick_keepalive now t).1 ≡ false =
      ap (λ x. is_time_wait x && leb 6000 (sub32 now (tick_keepalive now t).1.time_wait_ticks))
        (keepalive-Alike now t).state
      ∙ ap (λ b. b && leb 6000 (sub32 now (tick_keepalive now t).1.time_wait_ticks))
          (no_wait t.state live) in
    ap (λ r. r.1) (third _ _ _ _ _ (ap not used) fresh)
  where
    third :
        (a b : Bool) (x y z : List Sent × Tcb)
        → a ≡ false
        → b ≡ false
        → (if a then x else if b then y else z) ≡ z
    third a b x y z e e' = rw (e, e') refl

    no_wait : (x : TcpState) → x ≢ time_wait → is_time_wait x ≡ false
    no_wait time_wait n = absurd (n refl)
    no_wait _ n = refl

-- A look at a timer that has run out.
late :
    (now : ℕ) (t : Tcb)
    → t.last_seg_ticks ≢ 0
    → t.snd_una ≢ t.snd_nxt
    → t.rto_ticks ≤ sub32 now t.last_seg_ticks
    → (tick_retransmit now t).1
      ≡ (if leb tcp_max_retries t.retries then dropped_tcb t else backed_off now t)
unfolding tick_retransmit
late now t running flying due =
    let e : (t.last_seg_ticks == 0) ≡ false = ground arith in
    let e2 : (t.snd_una == t.snd_nxt) ≡ false = ground arith in
    let e3 : ltb (sub32 now t.last_seg_ticks) t.rto_ticks ≡ false = ground arith in
    elim (Bool-cases (leb tcp_max_retries t.retries)) [
      | inl f ↦ rw (e, e2, e3, f) refl
      | inr f ↦ rw (e, e2, e3, f) refl
    ]

if_true : (x y : Tcb) {b : Bool} → b ≡ true → (if b then x else y) ≡ x
if_true x y e = rw e refl

if_false : (x y : Tcb) {b : Bool} → b ≡ false → (if b then x else y) ≡ y
if_false x y e = rw e refl

length-zero : (l : List ℕ) → length l ≡ 0 → l ≡ []
length-zero [] e = refl
length-zero (x ∷ l) e = absurd (omega arith)

-- The tick of such a connection, when the timeout has passed.
tick_due :
    (now : ℕ) (t : Tcb)
    → Unanswered t
    → t.rto_ticks ≤ sub32 now t.last_seg_ticks
    → (tick_tcb now t).1 ≡ (
        if leb tcp_max_retries t.retries
        then dropped_tcb (at_timer now t)
        else backed_off now (at_timer now t))
tick_due now t v due =
    let u = at_timer now t in
    let a = at_timer-Alike now t in
    tick_tcb_live now t v.used v.not_waiting
    ∙ late now u (λ e. v.running (sym a.running ∙ e)) (λ e. v.flying (sym a.una ∙ e ∙ a.nxt))
        (omega (arith, due, a.rto, ap (sub32 now) a.running))
    ∙ ap (λ r. if leb tcp_max_retries r then dropped_tcb u else backed_off now u) a.retries

backed_off-Unanswered :
    (now : ℕ) (t : Tcb)
    → Unanswered t
    → now ≢ 0
    → t.retries < tcp_max_retries
    → Unanswered (backed_off now (at_timer now t))
backed_off-Unanswered now t v some_now less =
    let a = at_timer-Alike now t in
    record {
      used = a.used ∙ v.used;
      not_waiting = λ e. v.not_waiting (sym a.state ∙ e);
      running = some_now;
      flying = λ e. v.flying (sym a.una ∙ e ∙ a.nxt);
      few = omega (arith, a.retries);
    }

-- A connection with unacknowledged bytes whose peer stays silent is closed. It is in use and not in
-- TIME_WAIT, its timer is running after at most five resends, and the ticks counted here are those that come
-- when the timeout has passed, by a clock that never shows 0: from `t.retries` resends on, which may be none,
-- the tick after the fifth resend frees the slot.
pub silence-frees :
    (l : List ℕ) (t : Tcb)
    → Unanswered t
    → Expiring l t
    → length l + t.retries ≡ tcp_max_retries + 1
    → ((silence l t).in_use ≡ false) × ((silence l t).state ≡ closed)
unfolding silence Expiring
silence-frees [] t v ex n = absurd (omega (arith, v.few))
silence-frees (now ∷ l) t v (now_ne, due, ex) n =
    elim (Bool-cases (leb tcp_max_retries t.retries)) [
      | inl e ↦
          let nil : l ≡ [] = length-zero l (ground arith) in
          let u = at_timer now t in
          let step : (tick_tcb now t).1 ≡ dropped_tcb u =
            tick_due now t v due ∙ if_true (dropped_tcb u) (backed_off now u) e in
          (
            ap (λ k. (silence k (tick_tcb now t).1).in_use) nil ∙ ap (λ x. x.in_use) step,
            ap (λ k. (silence k (tick_tcb now t).1).state) nil ∙ ap (λ x. x.state) step,
          )
      | inr e ↦
          let u = at_timer now t in
          let less : t.retries < tcp_max_retries = ground arith in
          let step : (tick_tcb now t).1 ≡ backed_off now u =
            tick_due now t v due ∙ if_false (dropped_tcb u) (backed_off now u) e in
          subst (λ x. ((silence l x).in_use ≡ false) × ((silence l x).state ≡ closed)) (sym step)
            (silence-frees l (backed_off now u) (backed_off-Unanswered now t v now_ne less)
              (subst (Expiring l) step ex) (omega (arith, (at_timer-Alike now t).retries)))
    ]

-- A connection whose retransmission timer is off.
record IsOff (t : Tcb) : Type 0 where
  used : t.in_use ≡ true
  not_waiting : t.state ≢ time_wait
  off : t.last_seg_ticks ≡ 0

tick-IsOff : (now : ℕ) (t : Tcb) → IsOff t → IsOff (tick_tcb now t).1
tick-IsOff now t v =
    let a = at_timer-Alike now t in
    let off : (at_timer now t).last_seg_ticks ≡ 0 = a.running ∙ v.off in
    subst IsOff (sym (tick_tcb_live now t v.used v.not_waiting ∙ idle (at_timer now t) off))
      (record {
        used = a.used ∙ v.used;
        not_waiting = λ e. v.not_waiting (sym a.state ∙ e);
        off = off;
      })
  where
    idle : (u : Tcb) → u.last_seg_ticks ≡ 0 → (tick_retransmit now u).1 ≡ u
    idle u off = unfold tick_retransmit in rw (timer_off u off) refl
      where
        timer_off : (u : Tcb) → u.last_seg_ticks ≡ 0 → (u.last_seg_ticks == 0) ≡ true
        timer_off u e = ground arith

silence-IsOff : (l : List ℕ) (t : Tcb) → IsOff t → IsOff (silence l t)
unfolding silence
silence-IsOff [] t v = v
silence-IsOff (now ∷ l) t v = silence-IsOff l (tick_tcb now t).1 (tick-IsOff now t v)

-- A resend at tick 0 turns the timer off: a connection in use and not in TIME_WAIT, with unacknowledged bytes,
-- whose running timer is due at tick 0 and which has a retry left, stays in its slot through every later tick,
-- whenever it comes, with its timer off, while the peer stays silent.
pub silence-never_frees :
    (l : List ℕ) (t : Tcb)
    → Unanswered t
    → t.retries < tcp_max_retries
    → t.rto_ticks ≤ sub32 0 t.last_seg_ticks
    → ((silence (0 ∷ l) t).in_use ≡ true) × ((silence (0 ∷ l) t).last_seg_ticks ≡ 0)
unfolding silence
silence-never_frees l t v less due =
    let u = at_timer 0 t in
    let a = at_timer-Alike 0 t in
    let step : (tick_tcb 0 t).1 ≡ backed_off 0 u =
      tick_due 0 t v due ∙ if_false (dropped_tcb u) (backed_off 0 u) (ground arith) in
    let off : IsOff (backed_off 0 u) = record {
      used = a.used ∙ v.used;
      not_waiting = λ e. v.not_waiting (sym a.state ∙ e);
      off = refl;
    } in
    let w = silence-IsOff l (tick_tcb 0 t).1 (subst IsOff (sym step) off) in (w.used, w.off)
