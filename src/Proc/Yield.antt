-- ===== src/Proc/Yield.antt =====
-- `proc_yield`: the switch to the process that the scheduler chose.
use stink_os.Base.{
  ℕ, ◌+◌, ◌-◌, ◌<◌, ◌≡◌, ◌≢◌, refl, sym, ap, ◌∙◌, subst, true, false, arith, Bool-cases, inl, inr,
  some, none, Option, if◌then◌else◌, get_or-set_self, get_or-set_ne, length-set, ◌==◌, some_same,
}
use stink_os.Proc.{
  Proc, Procs, State, unused, embryo, ready, running, sleeping, zombie, is_unused, is_running,
  is_ready, no_proc, slot, put_slot, proc_max, next_ready, Switch, preempt, switch_to, yield_to,
  yield_from, proc_yield,
}
use stink_os.Proc.Inv.{IsValid, put_slot-IsValid, slot-put}
use stink_os.Proc.Schedule.{next_ready-Choice, Choice}

-- What `proc_yield` does when process `r` runs and process `b` is chosen.
pub record Yielded (s : Procs) (r b : ℕ) (out : Option Switch × Procs) : Type 0 where
  pub valid : IsValid out.1
  pub now : out.1.current ≡ some b
  pub was_ready : (slot s b).state ≡ ready
  pub runs : (slot out.1 b).state ≡ running
  pub preempted :
      r ≢ b
      → (slot out.1 r).state ≡ (if is_running (slot s r).state then ready else (slot s r).state)
  pub others : (j : ℕ) → r ≢ j → b ≢ j → slot out.1 j ≡ slot s j
  pub hardware :
      out.0
      ≡ some (record {
        to_cr3 = (slot s b).cr3;
        esp0 = if (slot s b).kstack_top == 0 then none else some (slot s b).kstack_top;
        from_slot = r;
        to_esp = (slot s b).esp;
      })

module _ {s : Procs} (r b : ℕ) (v : IsValid s) (cur : s.current ≡ some r) (lt : b < proc_max)
    (cand : (slot s b).state ≡ ready) where
  abbrev first : Procs
  first = put_slot s r (preempt (slot s r))

  r_in : r < proc_max
  r_in = v.current_in r cur

  preempt-fields :
      (p : Proc)
      → is_unused p.state ≡ false
      → (is_unused (preempt p).state ≡ false) × (is_running (preempt p).state ≡ false)
  preempt-fields p u = ground arith

  first-IsValid : IsValid first
  first-IsValid =
      let (used, stopped) = preempt-fields (slot s r) (v.active r cur) in
      put_slot-IsValid r _ v r_in (λ u. v.pids r r_in (v.active r cur)) stopped (λ e. used)

  first_stopped : (i : ℕ) → i < proc_max → is_running (slot first i).state ≡ false
  first_stopped =
      slot-put s r (preempt (slot s r)) (λ j q. j < proc_max → is_running q.state ≡ false) v.slots
        r_in (λ h. (preempt-fields (slot s r) (v.active r cur)).1) others_stopped
    where
      others_stopped : (j : ℕ) → r ≢ j → j < proc_max → is_running (slot s j).state ≡ false
      others_stopped j ne h = elim (Bool-cases (is_running (slot s j).state)) [
        | inl on ↦ absurd (ne (some_same (sym cur ∙ v.single j h on)))
        | inr off ↦ off
      ]

  abbrev second : Procs
  second = put_slot first b (record (slot first b) { state = running })

  abbrev last : Procs
  last = record second { current = some b }

  first_used : (i : ℕ) → is_unused (slot s i).state ≡ false → is_unused (slot first i).state ≡ false
  first_used =
      slot-put s r (preempt (slot s r))
        (λ j q. is_unused (slot s j).state ≡ false → is_unused q.state ≡ false) v.slots r_in
        (λ u. (preempt-fields (slot s r) u).0) (λ j ne u. u)

  last-IsValid : IsValid last
  last-IsValid = record {
    slots = length-set _ b _ ∙ first-IsValid.slots;
    pids =
        slot-put first b _ (λ j q. j < proc_max → is_unused q.state ≡ false → q.pid ≡ j + 1)
          first-IsValid.slots lt (λ h u. first-IsValid.pids b lt (first_used b (ap is_unused cand)))
          (λ j ne. first-IsValid.pids j);
    current_in = λ k e. subst (λ m. m < proc_max) (some_same e) lt;
    active =
        λ k e. subst (λ m. is_unused (slot last m).state ≡ false) (some_same e) (ap is_unused runs);
    single =
        slot-put first b _ (λ j q. j < proc_max → is_running q.state ≡ true → some b ≡ some j)
          first-IsValid.slots lt (λ h u. refl)
          (λ j ne h on. absurd (true_ne_false (sym on ∙ first_stopped j h)));
  }
    where
      runs : (slot last b).state ≡ running
      runs = ap (λ p. p.state) (get_or-set_self first.table b _ no_proc (rw first-IsValid.slots lt))

      true_ne_false : true ≢ false
      true_ne_false e = cc e

  Yielded-fields : Yielded s r b (switch_to r b s)
  unfolding switch_to
  Yielded-fields = record {
    valid = last-IsValid;
    now = refl;
    was_ready = cand;
    runs = ap (λ p. p.state) there;
    preempted = λ ne.
        ap (λ p. p.state) (get_or-set_ne first.table b r _ no_proc (λ e. ne (sym e)) ∙ first_there);
    others = λ j ne ne'.
        get_or-set_ne first.table b j _ no_proc ne' ∙ get_or-set_ne s.table r j _ no_proc ne;
    hardware = ap of_next there ∙ kept;
  }
    where
      there : slot last b ≡ record (slot first b) { state = running }
      there = get_or-set_self first.table b _ no_proc (rw first-IsValid.slots lt)

      first_there : slot first r ≡ preempt (slot s r)
      first_there = get_or-set_self s.table r _ no_proc (rw v.slots r_in)

      of_next : Proc → Option Switch
      of_next p = some (record {
        to_cr3 = p.cr3;
        esp0 = if p.kstack_top == 0 then none else some p.kstack_top;
        from_slot = r;
        to_esp = p.esp;
      })

      kept : of_next (slot first b) ≡ of_next (slot s b)
      kept =
          slot-put s r (preempt (slot s r)) (λ j q. of_next q ≡ of_next (slot s j)) v.slots r_in
            refl (λ j ne. refl) b

-- What `proc_yield` does when process `r` runs: nothing if there is no choice, else the switch.
pub data YieldCase (s : Procs) (r : ℕ) : Option Switch × Procs → Type 0 where
  stay : next_ready ((slot s r).pid - 1) s ≡ none → YieldCase s r (none, s)
  go :
      {out : Option Switch × Procs} (b : ℕ)
      → next_ready ((slot s r).pid - 1) s ≡ some b
      → Yielded s r b out
      → YieldCase s r out

choice_in :
    (s : Procs) (from b : ℕ)
    → next_ready from s ≡ some b
    → (b < proc_max) × ((slot s b).state ≡ ready)
choice_in s from b e =
    let (bp, best, least) = subst (Choice s.table from) e (next_ready-Choice from s) in
    (
      subst (λ k. k < proc_max) (sym best.index) (omega arith),
      subst (λ k. (slot s k).state ≡ ready) (sym best.index) (is_ready-ready _ best.is_candidate),
    )
  where
    is_ready-ready : (st : State) → is_ready st ≡ true → st ≡ ready
    is_ready-ready ready e = refl
    is_ready-ready unused e = cc e
    is_ready-ready embryo e = cc e
    is_ready-ready running e = cc e
    is_ready-ready sleeping e = cc e
    is_ready-ready zombie e = cc e

yield_to-cases :
    {s : Procs} (r : ℕ) (o : Option ℕ)
    → IsValid s
    → s.current ≡ some r
    → next_ready ((slot s r).pid - 1) s ≡ o
    → YieldCase s r (yield_to r o s)
unfolding yield_to
yield_to-cases r none v cur e = stay e
yield_to-cases {s = s} r (some b) v cur e =
    let (lt, cand) = choice_in s _ b e in go b e (Yielded-fields r b v cur lt cand)

-- `proc_yield` in a valid table in which process `r` runs. If the scheduler finds no process,
-- nothing changes. Otherwise the process it finds was ready and is now running and current, the old
-- process became ready if it was still running and kept its state if not, no other slot changed, the
-- table is valid, so no second process is running, and the switch is to the saved stack pointer,
-- page directory and kernel stack of the process found.
pub proc_yield-cases :
    {s : Procs} (r : ℕ) → IsValid s → s.current ≡ some r → YieldCase s r (proc_yield s)
unfolding proc_yield yield_from
proc_yield-cases {s = s} r v cur =
    subst (λ o. YieldCase s r (yield_from o s)) (sym cur) (yield_to-cases r _ v cur refl)
