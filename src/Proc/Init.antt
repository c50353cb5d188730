-- ===== src/Proc/Init.antt =====
-- `proc_init`: the table after boot.
use stink_os.Base.{
  ℕ, zero, suc, ◌+◌, ◌<◌, ◌≡◌, ◌≢◌, refl, sym, ap, ◌∙◌, subst, List, [], ◌∷◌, true, false, length,
  get_or, arith, some, some_same, length-set, get_or-set_self,
}
use stink_os.Proc.{
  Proc, Procs, is_unused, is_running, running, no_proc, slot, put_slot, proc_max, zero_proc,
  zero_all, proc_init, copy_name, kinit,
}
use stink_os.Proc.Inv.{IsValid, slot-put}

length-zero_all : (table : List Proc) → length (zero_all table) ≡ length table
unfolding zero_all
length-zero_all [] = refl
length-zero_all (p ∷ ps) = ap suc (length-zero_all ps)

get_or-zero_all :
    (table : List Proc) (i : ℕ) → is_unused (get_or (zero_all table) i no_proc).state ≡ true
unfolding zero_all zero_proc
get_or-zero_all [] i = refl
get_or-zero_all (p ∷ ps) zero = refl
get_or-zero_all (p ∷ ps) (suc i) = get_or-zero_all ps i

-- Whatever the 16 slots held, `proc_init` leaves a valid table in which the boot process, PID 1, is
-- running in slot 0 and no other slot is in use.
pub proc_init-IsValid :
    (boot_kstack : ℕ) (s : Procs)
    → length s.table ≡ proc_max
    → IsValid (proc_init boot_kstack s)
      × ((slot (proc_init boot_kstack s) 0).state ≡ running)
      × ((j : ℕ) → 0 ≢ j → is_unused (slot (proc_init boot_kstack s) j).state ≡ true)
unfolding proc_init copy_name
proc_init-IsValid boot_kstack s len = (
  record {
    slots = length-set _ 0 boot ∙ size;
    pids =
        slot-put cleared 0 boot (λ j q. j < proc_max → is_unused q.state ≡ false → q.pid ≡ j + 1)
          size (omega arith) (λ h u. refl) (λ j ne h u. absurd (cc (sym (empty j) ∙ u)));
    current_in = λ r e. omega (arith, some_same e);
    active = λ r e.
        subst (λ k. is_unused (slot last k).state ≡ false) (some_same e)
          (ap (λ p. is_unused p.state) there);
    single =
        slot-put cleared 0 boot (λ j q. j < proc_max → is_running q.state ≡ true → some 0 ≡ some j)
          size (omega arith) (λ h u. refl)
          (λ j ne h on. absurd (unused_stopped (slot cleared j) (empty j) on));
  },
  ap (λ p. p.state) there,
  slot-put cleared 0 boot (λ j q. 0 ≢ j → is_unused q.state ≡ true) size (omega arith)
      (λ ne. absurd (ne refl)) (λ j ne h. empty j),
)
  where
    cleared : Procs
    cleared = record s { table = zero_all s.table }

    boot : Proc
    boot = copy_name (some kinit) (record (slot cleared 0) {
      pid = 1;
      parent_pid = 0;
      state = running;
      kstack_top = boot_kstack;
    })

    last : Procs
    last = record (put_slot cleared 0 boot) { current = some 0 }

    size : length cleared.table ≡ proc_max
    size = length-zero_all s.table ∙ len

    empty : (j : ℕ) → is_unused (slot cleared j).state ≡ true
    empty = get_or-zero_all s.table

    there : slot last 0 ≡ boot
    there = get_or-set_self cleared.table 0 boot no_proc (rw size (omega arith))

    unused_stopped : (p : Proc) → is_unused p.state ≡ true → is_running p.state ≢ true
    unused_stopped p u r = ground arith
