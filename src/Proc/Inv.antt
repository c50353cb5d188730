-- ===== src/Proc/Inv.antt =====
-- The invariant of the process table.
use stink_os.Base.{
  ℕ, ◌+◌, ◌<◌, ◌≡◌, ◌≢◌, sym, ◌∙◌, subst, true, false, length, get_or, set, some, get_or-set_self,
  get_or-set_ne, length-set, ℕ_discrete,
}
use stink_os.Proc.{Proc, Procs, is_unused, is_running, no_proc, slot, put_slot, proc_max}

-- A slot in use has the PID of its position, `current` points to a slot in use, and no other slot
-- is running.
pub record IsValid (s : Procs) : Type 0 where
  pub slots : length s.table ≡ proc_max
  pub pids : (i : ℕ) → i < proc_max → is_unused (slot s i).state ≡ false → (slot s i).pid ≡ i + 1
  pub current_in : (r : ℕ) → s.current ≡ some r → r < proc_max
  pub active : (r : ℕ) → s.current ≡ some r → is_unused (slot s r).state ≡ false
  pub single : (i : ℕ) → i < proc_max → is_running (slot s i).state ≡ true → s.current ≡ some i

-- What holds of a new value of one slot and of the old value of the others holds of all.
pub slot-put :
    (s : Procs) (i : ℕ) (p : Proc) (P : ℕ → Proc → Type 0)
    → length s.table ≡ proc_max
    → i < proc_max
    → P i p
    → ((j : ℕ) → i ≢ j → P j (slot s j))
    → (j : ℕ) → P j (slot (put_slot s i p) j)
slot-put s i p P len lt new old j = elim (ℕ_discrete i j) [
  | yes e ↦
      subst (λ k. P k (get_or (set s.table i p) k no_proc)) e
        (subst (P i) (sym (get_or-set_self s.table i p no_proc (rw len lt))) new)
  | no ne ↦ subst (P j) (sym (get_or-set_ne s.table i j p no_proc ne)) (old j ne)
]

-- A slot may be given a value that has the slot's PID if it is in use, and is not running.
pub put_slot-IsValid :
    {s : Procs} (i : ℕ) (p : Proc)
    → IsValid s
    → i < proc_max
    → (is_unused p.state ≡ false → p.pid ≡ i + 1)
    → is_running p.state ≡ false
    → (s.current ≡ some i → is_unused p.state ≡ false)
    → IsValid (put_slot s i p)
put_slot-IsValid {s} i p v lt pid rest alive = record {
  slots = length-set s.table i p ∙ v.slots;
  pids =
      slot-put s i p (λ j q. j < proc_max → is_unused q.state ≡ false → q.pid ≡ j + 1) v.slots lt
        (λ h. pid) (λ j ne. v.pids j);
  current_in = v.current_in;
  active =
      slot-put s i p (λ j q. s.current ≡ some j → is_unused q.state ≡ false) v.slots lt alive
        (λ j ne. v.active j);
  single =
      slot-put s i p (λ j q. j < proc_max → is_running q.state ≡ true → s.current ≡ some j) v.slots
        lt (λ h r. cc (sym r ∙ rest)) (λ j ne. v.single j);
}
