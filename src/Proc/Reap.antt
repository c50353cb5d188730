-- ===== src/Proc/Reap.antt =====
-- `proc_kthread_create` and `proc_reap`: the life of a kernel stack.
use stink_os.Base.{
  ℤ, ℕ, ◌+◌, ◌^◌, ◌<◌, ◌≡◌, ◌≢◌, ◌⊎◌, refl, sym, ap, ◌∙◌, subst, List, Bool, true, false, length,
  arith, inl, inr, some, none, Option, if◌then◌else◌, get_or-set_self, get_or-set_ne, length-set,
  ◌==◌, sub32, add32, some_same,
}
use stink_os.Proc.{
  Procs, ready, zombie, is_unused, is_zombie, no_proc, slot, put_slot, proc_max, zero_proc,
  proc_free, proc_reap, virt_to_phys, phys_to_virt, proc_alloc, kthread_stack, kthread_ready,
  proc_kthread_create, thread_of,
}
use stink_os.Proc.Inv.{IsValid}
use stink_os.Proc.Alloc.{Created, proc_alloc-Created}
use stink_os.Pmm.{Pmm, pmm_free, pmm_alloc}
use stink_os.Pmm.Inv
use stink_os.Pmm.Inv.{IsFrame, refs}
use stink_os.Pmm.Alloc.{
  pmm_alloc-Granted, pmm_alloc-IsValid, Granted, AllocCase, recycled, fresh, exhausted,
  pmm_alloc-cases,
}
use stink_os.Pmm.Free.{pmm_free-IsValid}
use stink_os.Pmm.Owners.{refs-pmm_free, frame_base-IsFrame}

-- The frame of a kernel stack, found again from its top.
stack_frame :
    (f : ℕ) → f + 4096 < 2 ^ 31 → virt_to_phys (sub32 (add32 (phys_to_virt f) 4096) 4096) ≡ f
stack_frame f lt = omega arith

stack_top-nonzero : (f : ℕ) → f + 4096 < 2 ^ 31 → add32 (phys_to_virt f) 4096 ≢ 0
stack_top-nonzero f lt = omega arith

-- A kernel thread in slot `i` of `s'`, whose stack is the frame that was allocated.
pub record Thread (i : ℕ) (s s' : Procs) (mem mem' : Pmm) : Type 0 where
  pub inside : i < proc_max
  pub length_same : length s'.table ≡ proc_max
  pub frame : (pmm_alloc mem).0 ≢ 0
  pub pool : mem' ≡ (pmm_alloc mem).1
  pub is_first : is_unused (slot s i).state ≡ true
  pub starts : (slot s' i).state ≡ ready
  pub pid : (slot s' i).pid ≡ i + 1
  pub stack : (slot s' i).kstack_top ≡ add32 (phys_to_virt (pmm_alloc mem).0) 4096
  pub others : (j : ℕ) → i ≢ j → slot s' j ≡ slot s j

kthread_stack-Thread :
    (i entry : ℕ) {s s1 : Procs} {mem : Pmm}
    → i < proc_max
    → IsValid s1
    → Created i s (some i, s1)
    → (pmm_alloc mem).0 ≢ 0
    → Thread i s (kthread_ready i (pmm_alloc mem).0 entry s1) mem (pmm_alloc mem).1
unfolding kthread_ready
kthread_stack-Thread i entry {s} {s1} {mem} lt v c ne = record {
  inside = lt;
  length_same = length-set s1.table i _ ∙ v.slots;
  frame = ne;
  pool = refl;
  is_first = c.free;
  starts = ap (λ p. p.state) there;
  pid = ap (λ p. p.pid) there ∙ c.pid;
  stack = ap (λ p. p.kstack_top) there;
  others = λ j ne'. get_or-set_ne s1.table i j _ no_proc ne' ∙ c.others j ne';
}
  where
    there :
        slot (kthread_ready i (pmm_alloc mem).0 entry s1) i
        ≡ thread_of (pmm_alloc mem).0 entry (slot s1 i)
    there = get_or-set_self s1.table i _ no_proc (rw v.slots lt)

-- The result of `kthread_stack` once it is known whether there is a frame.
abbrev with_frame : ℕ → ℕ → Procs → Pmm → Bool → Option ℕ × Procs × Pmm
with_frame i entry s mem b =
    if b
    then (none, proc_free (some i) s, (pmm_alloc mem).1)
    else (some i, kthread_ready i (pmm_alloc mem).0 entry s, (pmm_alloc mem).1)

with_frame-made :
    (entry i k : ℕ) {s : Procs} {s1 : Procs} {mem : Pmm} (b : Bool)
    → ((pmm_alloc mem).0 == 0) ≡ b
    → k < proc_max
    → IsValid s1
    → Created k s (some k, s1)
    → (with_frame k entry s1 mem b).0 ≡ some i
    → Thread i s (with_frame k entry s1 mem b).1 mem (with_frame k entry s1 mem b).2
with_frame-made entry i k true z lt v c ok = cc ok
with_frame-made entry i k {s} {s1} {mem} false z lt v c ok =
    subst (λ m. Thread m s (kthread_ready k (pmm_alloc mem).0 entry s1) mem (pmm_alloc mem).1)
      (some_same ok) (kthread_stack-Thread k entry lt v c (ground arith))

kthread_stack-made :
    (entry i : ℕ) {s : Procs} {mem : Pmm} (r : Option ℕ × Procs)
    → IsValid r.1
    → ((k : ℕ) × (k < proc_max) × Created k s r) ⊎ (r.0 ≡ none)
    → (kthread_stack r.0 entry r.1 mem).0 ≡ some i
    → Thread i s (kthread_stack r.0 entry r.1 mem).1 mem (kthread_stack r.0 entry r.1 mem).2
unfolding kthread_stack
kthread_stack-made entry i (none, s1) v made ok = cc ok
kthread_stack-made entry i {s} {mem} (some k', s1) v (inr e) ok = cc e
kthread_stack-made entry i {s} {mem} (some k', s1) v (inl (k, lt, c)) ok =
    with_frame-made entry i k' ((pmm_alloc mem).0 == 0) refl
      (subst (λ m. m < proc_max) (sym same) lt) v
      (subst (λ m. Created m s (some k', s1)) (sym same) c) ok
  where
    same : k' ≡ k
    same = some_same c.result

entered :
    (i : ℕ) {s : Procs} {mem : Pmm} (b : Bool) (r : Option ℕ × Procs × Pmm)
    → (r.0 ≡ some i → Thread i s r.1 mem r.2)
    → (if b then (none, s, mem) else r).0 ≡ some i
    → Thread i s (if b then (none, s, mem) else r).1 mem (if b then (none, s, mem) else r).2
entered i true r f ok = cc ok
entered i false r f ok = f ok

create-Thread :
    (name : Option (List ℕ)) (entry i : ℕ) {s : Procs} {mem : Pmm}
    → IsValid s
    → (proc_kthread_create name entry s mem).0 ≡ some i
    → Thread i s
        (proc_kthread_create name entry s mem).1
        mem
        (proc_kthread_create name entry s mem).2
unfolding proc_kthread_create
create-Thread name entry i {s} {mem} v ok =
    entered i (entry == 0) (kthread_stack (proc_alloc name s).0 entry (proc_alloc name s).1 mem)
      (kthread_stack-made entry i (proc_alloc name s) (proc_alloc-Created name v).0 made) ok
  where
    made :
        ((k : ℕ) × (k < proc_max) × Created k s (proc_alloc name s))
        ⊎ ((proc_alloc name s).0 ≡ none)
    made = elim (proc_alloc-Created name v).1 [ inl c ↦ inl c | inr e ↦ inr e.0 ]

-- A kernel thread that exits with `code`.
abbrev pub exited : ℕ → ℤ → Procs → Procs
exited i code s = put_slot s i (record (slot s i) { state = zombie; exit_code = code })

-- What `proc_reap` makes of a kernel thread that has exited, `f` being the frame of its stack.
pub record Reaped (i : ℕ) (code : ℤ) (f : ℕ) (s : Procs) (mem mem' : Pmm) (out : ℤ × Procs × Pmm)
    : Type 0 where
  pub result : out.0 ≡ code
  pub free : is_unused (slot out.1 i).state ≡ true
  pub others : (j : ℕ) → i ≢ j → slot out.1 j ≡ slot s j
  pub valid : Inv.IsValid out.2
  pub frame : IsFrame mem f
  pub owned : refs mem' f ≡ 1
  pub returned : refs out.2 f ≡ 0

reap-zombie :
    (i : ℕ) (s : Procs) (mem : Pmm)
    → is_zombie (slot s i).state ≡ true
    → (slot s i).kstack_top ≢ 0
    → proc_reap (some i) s mem ≡ (
      (slot s i).exit_code,
      proc_free (some i) s,
      pmm_free (virt_to_phys (sub32 (slot s i).kstack_top 4096)) mem,
    )
unfolding proc_reap
reap-zombie i s mem z k = rw z (rw nonzero refl)
  where
    nonzero : ((slot s i).kstack_top == 0) ≡ false
    nonzero = ground arith

AllocCase-IsFrame : {s : Pmm} {r : ℕ × Pmm} {f : ℕ} → AllocCase s r → IsFrame s f → IsFrame r.1 f
AllocCase-IsFrame (recycled g nonempty e) h = omega (arith, h)
AllocCase-IsFrame (fresh zero_free room) h = omega (arith, h)
AllocCase-IsFrame (exhausted zero_free full) h = omega (arith, h)

free_stack :
    {mem : Pmm} (f top : ℕ)
    → Inv.IsValid mem
    → IsFrame mem f
    → f + 4096 < 2 ^ 31
    → top ≡ add32 (phys_to_virt f) 4096
    → refs mem f ≡ 1
    → (refs (pmm_free (virt_to_phys (sub32 top 4096)) mem) f ≡ 0)
free_stack {mem} f top v frame low e one =
    rw e
      (rw (stack_frame f low) (ground (arith, refs-pmm_free f f v frame, frame_base-IsFrame frame)))

reap-Thread :
    (i : ℕ) (code : ℤ) {s s' : Procs} {mem mem' : Pmm}
    → Inv.IsValid mem
    → mem.end_frame < 2 ^ 31
    → Thread i s s' mem mem'
    → Reaped i code (pmm_alloc mem).0 s mem mem' (proc_reap (some i) (exited i code s') mem')
unfolding proc_free zero_proc
reap-Thread i code {s} {s'} {mem} {mem'} v low t =
    subst (Reaped i code f s mem mem') (sym whole) (record {
      result = ap (λ p. p.exit_code) there;
      free = ap (λ p. is_unused p.state) emptied;
      others = λ j ne.
          get_or-set_ne after.table i j _ no_proc ne
          ∙ get_or-set_ne s'.table i j _ no_proc ne
          ∙ t.others j ne;
      valid = pmm_free-IsValid _ v';
      frame = g.frame;
      owned = owned;
      returned = free_stack f _ v' frame' small top owned;
    })
  where
    f : ℕ
    f = (pmm_alloc mem).0

    after : Procs
    after = exited i code s'

    g : Granted mem f (pmm_alloc mem).1
    g = pmm_alloc-Granted v t.frame

    v' : Inv.IsValid mem'
    v' = subst Inv.IsValid (sym t.pool) (pmm_alloc-IsValid v)

    frame' : IsFrame mem' f
    frame' =
        subst (λ m. IsFrame m f) (sym t.pool) (AllocCase-IsFrame (pmm_alloc-cases v.bounds) g.frame)

    owned : refs mem' f ≡ 1
    owned = subst (λ m. refs m f ≡ 1) (sym t.pool) g.owned

    small : f + 4096 < 2 ^ 31
    small = omega (arith, g.frame)

    there : slot after i ≡ record (slot s' i) { state = zombie; exit_code = code }
    there = get_or-set_self s'.table i _ no_proc (rw t.length_same t.inside)

    top : (slot after i).kstack_top ≡ add32 (phys_to_virt f) 4096
    top = ap (λ p. p.kstack_top) there ∙ t.stack

    emptied : slot (put_slot after i (zero_proc (slot after i))) i ≡ zero_proc (slot after i)
    emptied = get_or-set_self after.table i _ no_proc (
        rw (length-set s'.table i (record (slot s' i) { state = zombie; exit_code = code }))
          (rw t.length_same t.inside))

    whole : proc_reap (some i) after mem' ≡ (
      (slot after i).exit_code,
      proc_free (some i) after,
      pmm_free (virt_to_phys (sub32 (slot after i).kstack_top 4096)) mem',
    )
    whole =
        reap-zombie i after mem' (ap (λ p. is_zombie p.state) there)
          (λ z. stack_top-nonzero f small (sym top ∙ z))

-- A kernel thread from creation to `wait`. If `proc_kthread_create` gives slot `i` in a valid table,
-- and the allocator is valid and its range lies below 2 GiB, then once the thread has exited with a
-- code, `proc_reap` returns that code, empties the slot and gives the frame of the kernel stack,
-- which had one owner, back to the allocator, which is valid again; no other slot has changed.
pub kthread-Reaped :
    (name : Option (List ℕ)) (entry i : ℕ) (code : ℤ) {s : Procs} {mem : Pmm}
    → IsValid s
    → Inv.IsValid mem
    → mem.end_frame < 2 ^ 31
    → (proc_kthread_create name entry s mem).0 ≡ some i
    → let (r, s', mem') = proc_kthread_create name entry s mem in
      Reaped i code (pmm_alloc mem).0 s mem mem' (proc_reap (some i) (exited i code s') mem')
kthread-Reaped name entry i code v vm low ok =
    reap-Thread i code vm low (create-Thread name entry i v ok)
