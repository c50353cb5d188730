-- ===== src/Proc/Tests.antt =====
-- The process table on concrete input: after boot, with a second process, and with a kernel thread.
use stink_os.Base.{
  ℕ, ◌^◌, ◌<◌, ◌≡◌, ◌≢◌, refl, sym, ◌∙◌, List, [], ◌∷◌, none, some, false, length, replicate, arith,
  take, ◌++◌, ◌-◌, length-replicate, some_same,
}
use stink_os.Pmm.{Pmm, free_max, pmm_init, pmm_alloc}
use stink_os.Pmm.Inv
use stink_os.Pmm.Inv.{pmm_init-IsValid}
use stink_os.Proc.{
  Proc, Procs, State, ready, is_running, no_proc, slot, put_slot, proc_max, proc_init, proc_alloc,
  next_ready, proc_yield, proc_kthread_create, alloc_from, kthread_stack, zero_all, zero_proc,
  copy_name,
}
use stink_os.Proc.Inv.{IsValid, put_slot-IsValid}
use stink_os.Proc.Init.{proc_init-IsValid}
use stink_os.Proc.Alloc.{proc_alloc-Created}
use stink_os.Proc.Schedule.{Choice, next_ready-Choice}
use stink_os.Proc.Yield.{YieldCase, proc_yield-cases}
use stink_os.Proc.Snapshot.{proc_snapshot, process_header}
use stink_os.Proc.Snapshot.Spaces.{first_used, proc_snapshot-blank}

abbrev raw : Procs
raw = record { table = replicate proc_max no_proc; current = none }

abbrev booted : Procs
booted = proc_init 0x80100000 raw

raw-length : length raw.table ≡ proc_max
raw-length = length-replicate {A = Proc} proc_max no_proc

booted-IsValid : IsValid booted
booted-IsValid = (proc_init-IsValid 0x80100000 raw raw-length).0

abbrev shell : List ℕ
shell = b's' ∷ b'h' ∷ []

-- A child of the boot process in slot 1.
abbrev forked : Procs
forked = (proc_alloc (some shell) booted).1

forked-IsValid : IsValid forked
forked-IsValid = (proc_alloc-Created (some shell) booted-IsValid).0

booted_current : booted.current ≡ some 0
unfolding proc_init
booted_current = refl

forked_current : forked.current ≡ some 0
unfolding proc_init proc_alloc alloc_from
forked_current = refl

forked_pid : (slot forked 1).pid ≡ 2
unfolding proc_init proc_alloc alloc_from zero_all zero_proc copy_name replicate
forked_pid = refl

zero_ne_one : ◌≢◌ {A = ℕ} 0 1
zero_ne_one e = omega (arith, e)

not_second : forked.current ≢ some 1
not_second e = zero_ne_one (some_same (sym forked_current ∙ e))

-- The child with another state.
abbrev with_child : State → Procs
with_child st = put_slot forked 1 (record (slot forked 1) { state = st })

with_child-IsValid : (st : State) → is_running st ≡ false → IsValid (with_child st)
with_child-IsValid st off =
    put_slot-IsValid 1 _ forked-IsValid (omega arith) (λ u. forked_pid) off
      (λ e. absurd (not_second e))

next_ready-Choice_example : Choice (with_child ready).table 0 (next_ready 0 (with_child ready))
next_ready-Choice_example = next_ready-Choice 0 (with_child ready)

with_child_current : (st : State) → (with_child st).current ≡ some 0
with_child_current st = forked_current

proc_yield-cases_example : YieldCase (with_child ready) 0 (proc_yield (with_child ready))
proc_yield-cases_example =
    proc_yield-cases 0 (with_child-IsValid ready refl) (with_child_current ready)

abbrev frames : Pmm
frames = pmm_init 0x400000 0x2000000 (replicate free_max 0)

frames-IsValid : Inv.IsValid frames
frames-IsValid =
    pmm_init-IsValid 0x400000 0x2000000 (replicate free_max 0) (omega arith) (omega arith)
      (omega arith) (omega arith) (length-replicate {A = ℕ} free_max 0)

frames_low : frames.end_frame < 2 ^ 31
unfolding pmm_init
frames_low = omega arith

thread_made : (proc_kthread_create (some shell) 0x80002000 booted frames).0 ≡ some 1
unfolding proc_kthread_create proc_init proc_alloc alloc_from kthread_stack zero_all zero_proc
    copy_name pmm_alloc pmm_init replicate
thread_made = refl

-- The boot process has a pid of one digit.
boot_first : first_used forked.table ≡ some (slot forked 0)
unfolding proc_init proc_alloc alloc_from zero_all zero_proc copy_name replicate first_used
boot_first = refl

boot_pid : (slot forked 0).pid ≡ 1
unfolding proc_init proc_alloc alloc_from zero_all zero_proc copy_name replicate
boot_pid = refl

proc_snapshot-blank_example :
    proc_snapshot 64 forked ≡ take (64 - 1) (process_header ++ replicate (64 - 1) b' ')
proc_snapshot-blank_example =
    proc_snapshot-blank 64 forked (slot forked 0) boot_first (omega (arith, boot_pid))
