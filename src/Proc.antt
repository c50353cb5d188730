-- ===== src/Proc.antt =====
-- The process table and the scheduler of kernel/sys/proc.c. A process pointer is the index of its
-- slot, and `none` is NULL. The slots are changed in place, as the source changes `table[i]`.
pub mod Inv
pub mod Init
pub mod Alloc
pub mod Schedule
pub mod Children
pub mod Reap
pub mod Yield
pub mod Snapshot
mod Tests
use stink_os.Base.{
  ℕ, zero, suc, ◌+◌, ◌-◌, ◌%◌, ℤ, pos, negsuc, List, [], ◌∷◌, Option, none, some, Bool, true, false,
  not, ◌&&◌, ◌||◌, length, get_or, set, replicate, ltb, leb, ◌==◌, if◌then◌else◌, add32, sub32,
}
use stink_os.Vfs.Table.{Fd, vfs_fd_table_clear}
use stink_os.Pmm.{Pmm, pmm_alloc, pmm_free}

-- `PROC_MAX`, `PROC_NAME_LEN`, `PROC_NSIG`
abbrev pub proc_max : ℕ
proc_max = 16

abbrev pub proc_name_len : ℕ
proc_name_len = 16

abbrev pub proc_nsig : ℕ
proc_nsig = 32

-- `enum proc_state`
pub data State : Type 0 where
  unused embryo ready running sleeping zombie : State

abbrev pub is_unused : State → Bool
is_unused unused = true
is_unused _ = false

abbrev pub is_ready : State → Bool
is_ready ready = true
is_ready _ = false

abbrev pub is_running : State → Bool
is_running running = true
is_running _ = false

abbrev pub is_zombie : State → Bool
is_zombie zombie = true
is_zombie _ = false

-- `struct proc`
pub record Proc : Type 0 where
  pub pid : ℕ
  pub parent_pid : ℕ
  pub state : State
  pub exit_code : ℤ
  pub kstack_top : ℕ
  pub esp : ℕ
  pub cr3 : ℕ
  pub pending_signals : ℕ
  pub sig_handlers : List ℕ
  pub fd_table : List Fd
  pub priority : ℕ
  pub name : List ℕ

-- The static variables `table` and `running`.
pub record Procs : Type 0 where
  pub table : List Proc
  pub current : Option ℕ

pub zero_proc : Proc → Proc
zero_proc p = record p {
  pid = 0;
  parent_pid = 0;
  state = unused;
  exit_code = pos 0;
  kstack_top = 0;
  esp = 0;
  cr3 = 0;
  pending_signals = 0;
  priority = 16;
  sig_handlers = replicate proc_nsig 0;
  fd_table = vfs_fd_table_clear p.fd_table;
  name = replicate proc_name_len 0;
}

-- A slot that is out of range is never read; it stands for one that is not in use.
abbrev pub no_proc : Proc
no_proc = record {
  pid = 0;
  parent_pid = 0;
  state = unused;
  exit_code = pos 0;
  kstack_top = 0;
  esp = 0;
  cr3 = 0;
  pending_signals = 0;
  sig_handlers = [];
  fd_table = [];
  priority = 16;
  name = [];
}

abbrev pub slot : Procs → ℕ → Proc
slot s i = get_or s.table i no_proc

abbrev pub put_slot : Procs → ℕ → Proc → Procs
put_slot s i p = record s { table = set s.table i p }

-- The loop that copies at most `left` characters of a string that ends at its first 0, and pads with
-- zeros to `left + 1` bytes.
copy_bytes : ℕ → List ℕ → List ℕ
copy_bytes zero src = 0 ∷ []
copy_bytes (suc left) [] = 0 ∷ copy_bytes left []
copy_bytes (suc left) (c ∷ src) =
    let rest = copy_bytes left src in
    let pad = copy_bytes left [] in if c == 0 then 0 ∷ pad else c ∷ rest

-- `none` is the NULL name.
pub copy_name : Option (List ℕ) → Proc → Proc
copy_name none p = record p { name = set p.name 0 0 }
copy_name (some src) p = record p { name = copy_bytes (proc_name_len - 1) src }

pub zero_all : List Proc → List Proc
zero_all [] = []
zero_all (p ∷ ps) = zero_proc p ∷ zero_all ps

abbrev pub kinit : List ℕ
kinit = b'k' ∷ b'i' ∷ b'n' ∷ b'i' ∷ b't' ∷ []

-- The kernel stack of the boot process is a parameter: `gdt_boot_kstack_top()`.
pub proc_init : ℕ → Procs → Procs
proc_init boot_kstack s =
    let cleared = record s { table = zero_all s.table } in
    record (put_slot cleared 0 (
      copy_name (some kinit) (record (slot cleared 0) {
        pid = 1;
        parent_pid = 0;
        state = running;
        kstack_top = boot_kstack;
      }))) { current = some 0 }

-- `running ? running->pid : 0`
abbrev pub current_pid : Procs → ℕ
current_pid s = elim s.current [ none ↦ 0 | some i ↦ (slot s i).pid ]

abbrev embryo_of : ℕ → ℕ → Option (List ℕ) → Proc → Proc
embryo_of i parent name p =
    copy_name name (record (zero_proc p) { pid = i + 1; parent_pid = parent; state = embryo })

-- The search of `proc_alloc` from slot `i` on.
pub alloc_from : ℕ → ℕ → Option (List ℕ) → List Proc → Option ℕ × List Proc
alloc_from i parent name [] = (none, [])
alloc_from i parent name (p ∷ ps) =
    let (r, ps') = alloc_from (i + 1) parent name ps in
    if not (is_unused p.state) then (r, p ∷ ps') else (some i, embryo_of i parent name p ∷ ps)

pub proc_alloc : Option (List ℕ) → Procs → Option ℕ × Procs
proc_alloc name s =
    let (r, table') = alloc_from 0 (current_pid s) name s.table in (r, record s { table = table' })

pub proc_free : Option ℕ → Procs → Procs
proc_free none s = s
proc_free (some i) s = put_slot s i (zero_proc (slot s i))

pub proc_get : ℤ → Procs → Option ℕ
proc_get (negsuc _) s = none
proc_get (pos pid) s =
    if ltb pid 1 || ltb proc_max pid
    then none
    else if is_unused (slot s (pid - 1)).state
    then none
    else some (pid - 1)

count_used : List Proc → ℕ
count_used [] = 0
count_used (p ∷ ps) = if is_unused p.state then count_used ps else count_used ps + 1

pub proc_count : Procs → ℕ
proc_count s = count_used s.table

-- The words that `context_init` stores, with their addresses, and the stack pointer it returns.
pub context_init : ℕ → ℕ → List (ℕ × ℕ) × ℕ
context_init kstack_top entry = (
  (sub32 kstack_top 4, entry)
      ∷ (sub32 kstack_top 8, 0x202)
      ∷ (sub32 kstack_top 12, 0)
      ∷ (sub32 kstack_top 16, 0)
      ∷ (sub32 kstack_top 20, 0)
      ∷ (sub32 kstack_top 24, 0)
      ∷ [],
  sub32 kstack_top 24,
)

-- `KERNBASE`, `P2V` and `V2P` of kernel/arch/memlayout.h
abbrev pub kernbase : ℕ
kernbase = 0x80000000

abbrev pub phys_to_virt : ℕ → ℕ
phys_to_virt p = add32 p kernbase

abbrev pub virt_to_phys : ℕ → ℕ
virt_to_phys v = sub32 v kernbase

-- The fields of a kernel thread whose stack is `frame`.
abbrev pub thread_of : ℕ → ℕ → Proc → Proc
thread_of frame entry p =
    let top = add32 (phys_to_virt frame) 4096 in
    record p { kstack_top = top; esp = (context_init top entry).1; cr3 = 0; state = ready }

pub kthread_ready : ℕ → ℕ → ℕ → Procs → Procs
kthread_ready i frame entry s = put_slot s i (thread_of frame entry (slot s i))

pub kthread_stack : Option ℕ → ℕ → Procs → Pmm → Option ℕ × Procs × Pmm
kthread_stack none entry s mem = (none, s, mem)
kthread_stack (some i) entry s mem =
    let (frame, mem') = pmm_alloc mem in
    if frame == 0
    then (none, proc_free (some i) s, mem')
    else (some i, kthread_ready i frame entry s, mem')

pub proc_kthread_create : Option (List ℕ) → ℕ → Procs → Pmm → Option ℕ × Procs × Pmm
proc_kthread_create name entry s mem =
    let (r, s') = proc_alloc name s in
    if entry == 0 then (none, s, mem) else kthread_stack r entry s' mem

-- The loop of `next_ready`, with `left` rounds to go from round `i` on.
pub next_from : List Proc → ℕ → ℕ → ℕ → ℕ → Option ℕ → Option ℕ
next_from table from zero i best_prio best_idx = best_idx
next_from table from (suc left) i best_prio best_idx =
    let idx = (from + i) % proc_max in
    let p = get_or table idx no_proc in
    let better = is_ready p.state && ltb p.priority best_prio in
    next_from table from left (i + 1) (if better then p.priority else best_prio)
      (if better then some idx else best_idx)

pub next_ready : ℕ → Procs → Option ℕ
next_ready from s = next_from s.table from proc_max 1 32 none

-- What `proc_yield` hands to the hardware: the page directory, the kernel stack for the next trap
-- (if the process has one), and the two stack pointers of `context_switch`.
pub record Switch : Type 0 where
  pub to_cr3 : ℕ
  pub esp0 : Option ℕ
  pub from_slot : ℕ
  pub to_esp : ℕ

abbrev preempt : Proc → Proc
preempt p = record p { state = if is_running p.state then ready else p.state }

switch_to : ℕ → ℕ → Procs → Option Switch × Procs
switch_to prev next s =
    let s1 = put_slot s prev (preempt (slot s prev)) in
    let s2 = put_slot s1 next (record (slot s1 next) { state = running }) in
    let p = slot s2 next in
    (
      some (record {
        to_cr3 = p.cr3;
        esp0 = if p.kstack_top == 0 then none else some p.kstack_top;
        from_slot = prev;
        to_esp = p.esp;
      }),
      record s2 { current = some next },
    )

yield_to : ℕ → Option ℕ → Procs → Option Switch × Procs
yield_to prev none s = (none, s)
yield_to prev (some next) s = switch_to prev next s

yield_from : Option ℕ → Procs → Option Switch × Procs
yield_from none s = (none, s)
yield_from (some prev) s = yield_to prev (next_ready ((slot s prev).pid - 1) s) s

pub proc_yield : Procs → Option Switch × Procs
proc_yield s = yield_from s.current s

-- The result `negsuc 0` is -1.
pub proc_reap : Option ℕ → Procs → Pmm → ℤ × Procs × Pmm
proc_reap none s mem = (negsuc 0, s, mem)
proc_reap (some i) s mem =
    let p = slot s i in
    if not (is_zombie p.state) then (negsuc 0, s, mem) else (
      p.exit_code,
      proc_free (some i) s,
      (if p.kstack_top == 0 then mem else pmm_free (virt_to_phys (sub32 p.kstack_top 4096)) mem),
    )

-- `pid > 0 && p->pid != pid`
abbrev pub other_pid : ℤ → ℕ → Bool
other_pid (negsuc _) q = false
other_pid (pos pid) q = ltb 0 pid && not (q == pid)

abbrev pub is_child : ℕ → ℤ → Proc → Bool
is_child me pid p = is_zombie p.state && p.parent_pid == me && not (other_pid pid p.pid)

-- The search of `proc_find_zombie_child` from slot `i` on, for the children of process `me`.
pub find_zombie : ℕ → ℤ → ℕ → List Proc → Option ℕ
find_zombie me pid i [] = none
find_zombie me pid i (p ∷ ps) = if is_child me pid p then some i else find_zombie me pid (i + 1) ps

pub proc_find_zombie_child : ℤ → Procs → Option ℕ
proc_find_zombie_child pid s = elim s.current [
  | none ↦ none
  | some r ↦ find_zombie (slot s r).pid pid 0 s.table
]

pub any_living : ℕ → List Proc → Bool
any_living me [] = false
any_living me (p ∷ ps) =
    not (is_unused p.state || is_zombie p.state) && p.parent_pid == me || any_living me ps

pub proc_has_living_child : Procs → Bool
proc_has_living_child s = elim s.current [
  | none ↦ false
  | some r ↦ any_living (slot s r).pid s.table
]
