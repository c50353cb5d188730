-- ===== src/Timer/Slots.antt =====
-- When a timer fires, which ones fire, and which slot a new one takes.
use stink_os.Base.{
  ℕ, zero, suc, ◌+◌, ◌*◌, ◌^◌, ◌≤◌, ◌<◌, ◌≡◌, ◌⊎◌, ◌↔◌, inl, refl, sym, ap, ◌∙◌, subst, List, [],
  ◌∷◌, Bool, true, false, ◌&&◌, ltb, sub32, length, set, if◌then◌else◌, add32, arith,
  get_or-set_self, get_or-set_ne, length-set, ℕ_discrete,
}
use stink_os.Timer.{
  Timer, timer, no_timer, timer_max, ticks_of, armed, fires, tick_from, timer_tick,
}

-- A timer armed for a delay has at least the ticks of 10 ms that cover it and less than one tick more,
-- and it fires neither before that many ticks have passed nor later than at them, also where the tick
-- counter wraps: looked at `d` ticks after it was armed, for `d` below 2^31, it fires exactly if its
-- ticks have passed. (A delay within 9 ms of 2^32 ms would wrap.)
pub fires_iff :
    (now delay_ms cb arg d : ℕ)
    → now < 2 ^ 32
    → delay_ms + 9 < 2 ^ 32
    → d < 2 ^ 31
    → (delay_ms ≤ 10 * ticks_of delay_ms)
      × (10 * ticks_of delay_ms ≤ delay_ms + 10)
      × (fires (add32 now d) (armed now delay_ms cb arg) ≡ true ↔ ticks_of delay_ms ≤ d)
fires_iff now delay_ms cb arg d lt small near = (ground arith, ground arith, ground arith)

-- A timer is due if its slot is in use and its deadline has come: the counter is less than 2^31 ticks
-- beyond it.
abbrev pub is_due : ℕ → Timer → Bool
is_due now s = s.in_use && ltb (sub32 now s.deadline_ticks) (2 ^ 31)

-- The callbacks that are due among `left` slots from slot `i` on.
due_from : ℕ → ℕ → ℕ → List Timer → List (ℕ × ℕ)
due_from now zero i t = []
due_from now (suc left) i t =
    let s = timer t i in
    let rest = due_from now left (i + 1) t in if is_due now s then (s.cb, s.arg) ∷ rest else rest

pub due : ℕ → List Timer → List (ℕ × ℕ)
due now t = due_from now timer_max 0 t

abbrev pub quiet : ℕ → ℕ → List Timer → List Timer
quiet cb arg t = t

abbrev pub stopped : ℕ → Timer → Timer
stopped now s = if is_due now s then record s { in_use = false } else s

due_from-set :
    (left now i j : ℕ) (s : Timer) (t : List Timer)
    → j < i
    → due_from now left i (set t j s) ≡ due_from now left i t
unfolding due_from
due_from-set zero now i j s t lt = refl
due_from-set (suc left) now i j s t lt =
    rw
      (
        get_or-set_ne t j i s no_timer (λ e. omega (arith, e)),
        due_from-set left now (i + 1) j s t (omega arith),
      )
      refl

-- What one run over the slots from `i` on makes of the table, when the callbacks do not touch it.
record Ticked (now left i : ℕ) (t : List Timer) (out : List (ℕ × ℕ) × List Timer) : Type 0 where
  calls : out.0 ≡ due_from now left i t
  visited : (j : ℕ) → i ≤ j → j < i + left → timer out.1 j ≡ stopped now (timer t j)
  others : (j : ℕ) → (j < i) ⊎ (i + left ≤ j) → timer out.1 j ≡ timer t j

Ticked-step :
    (now left i : ℕ) (t : List Timer) (b : Bool) (out : List (ℕ × ℕ) × List Timer)
    → fires now (timer t i) ≡ b
    → i < length t
    → Ticked now left (i + 1) (if b then set t i (record (timer t i) { in_use = false }) else t) out
    → Ticked now
        (suc left)
        i
        t
        ((if b then ((timer t i).cb, (timer t i).arg) ∷ out.0 else out.0), out.1)
unfolding due_from
Ticked-step now left i t true out f lt k = record {
  calls = rw f (
      ap (λ cs. ((timer t i).cb, (timer t i).arg) ∷ cs)
        (k.calls ∙ due_from-set left now (i + 1) i _ t (omega arith)));
  visited = λ j lo hi. elim (ℕ_discrete i j) [
    | yes e ↦
        subst (λ n. timer out.1 n ≡ stopped now (timer t n)) e
          (k.others i (inl (omega arith)) ∙ get_or-set_self t i _ no_timer lt ∙ sym at)
    | no ne ↦
        k.visited j (omega arith) (omega arith)
        ∙ ap (stopped now) (get_or-set_ne t i j _ no_timer ne)
  ];
  others = λ j out_of.
      k.others j (omega (arith, out_of))
      ∙ get_or-set_ne t i j _ no_timer (λ e. omega (arith, e, out_of));
}
  where
    at : stopped now (timer t i) ≡ record (timer t i) { in_use = false }
    at = rw f refl
Ticked-step now left i t false out f lt k = record {
  calls = rw f k.calls;
  visited = λ j lo hi. elim (ℕ_discrete i j) [
    | yes e ↦
        subst (λ n. timer out.1 n ≡ stopped now (timer t n)) e
          (k.others i (inl (omega arith)) ∙ sym at)
    | no ne ↦ k.visited j (omega arith) (omega arith)
  ];
  others = λ j out_of. k.others j (omega (arith, out_of));
}
  where
    at : stopped now (timer t i) ≡ timer t i
    at = rw f refl

tick_from-Ticked :
    (left now i : ℕ) (t : List Timer)
    → i + left ≤ length t
    → Ticked now left i t (tick_from quiet now left i t)
unfolding tick_from due_from
tick_from-Ticked zero now i t le = record {
  calls = refl;
  visited = λ j lo hi. absurd (omega arith);
  others = λ j h. refl;
}
tick_from-Ticked (suc left) now i t le =
    Ticked-step now left i t (fires now (timer t i)) _ refl (omega arith)
      (tick_from-Ticked left now (i + 1) _ (longer (fires now (timer t i))))
  where
    longer :
        (b : Bool)
        → i + 1 + left ≤ length (if b then set t i (record (timer t i) { in_use = false }) else t)
    longer true = omega (arith, length-set t i (record (timer t i) { in_use = false }))
    longer false = omega arith

-- The timer interrupt, with callbacks that leave the table alone: it calls back exactly the timers that
-- are in use and due, once each and in slot order, and frees exactly their slots.
pub timer_tick-due :
    (now : ℕ) (t : List Timer)
    → length t ≡ timer_max
    → ((timer_tick quiet now t).0 ≡ due now t)
      × ((j : ℕ) → j < timer_max → timer (timer_tick quiet now t).1 j ≡ stopped now (timer t j))
unfolding timer_tick due
timer_tick-due now t len =
    let done : Ticked now timer_max 0 t (tick_from quiet now timer_max 0 t) =
      tick_from-Ticked timer_max now 0 t (omega arith) in
    (done.calls, λ j h. done.visited j (omega arith) (omega arith))
