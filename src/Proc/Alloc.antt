-- ===== src/Proc/Alloc.antt =====
-- `proc_alloc`, `proc_free` and `proc_get`: the slots of the process table.
use stink_os.Base.{
  ltb, ◌||◌, pos, ◌↔◌, ℕ, zero, suc, ◌+◌, ◌-◌, ◌<◌, ◌≡◌, ◌≢◌, ◌⊎◌, refl, sym, ap, ◌∙◌, subst, List,
  [], ◌∷◌, Bool, true, false, not, length, get_or, set, arith, Bool-cases, inl, inr, some, none,
  Option, if◌then◌else◌, get_or-set_self, get_or-set_ne,
}
use stink_os.Proc.{
  Proc, Procs, embryo, is_unused, no_proc, slot, put_slot, proc_max, zero_proc, copy_name,
  alloc_from, embryo_of, current_pid, proc_alloc, proc_free, proc_get, proc_count, count_used,
}
use stink_os.Proc.Inv.{IsValid, put_slot-IsValid}

-- The slot that `proc_alloc` takes is the first one that is not in use.
pub data AllocCase (k parent : ℕ) (name : Option (List ℕ)) (table : List Proc)
    : Option ℕ × List Proc → Type 0 where
  taken :
      (i : ℕ)
      → i < length table
      → is_unused (get_or table i no_proc).state ≡ true
      → ((j : ℕ) → j < i → is_unused (get_or table j no_proc).state ≡ false)
      → AllocCase k parent name table
          (some (k + i), set table i (embryo_of (k + i) parent name (get_or table i no_proc)))
  table_full :
      ((j : ℕ) → j < length table → is_unused (get_or table j no_proc).state ≡ false)
      → AllocCase k parent name table (none, table)

skip_used :
    (k parent : ℕ) (name : Option (List ℕ)) (p : Proc) (ps : List Proc) {r : Option ℕ × List Proc}
    → is_unused p.state ≡ false
    → AllocCase (k + 1) parent name ps r
    → AllocCase k parent name (p ∷ ps) (r.0, p ∷ r.1)
skip_used k parent name p ps u (taken i lt free below) =
    subst
      (λ m.
        AllocCase k parent name (p ∷ ps)
          (some m, p ∷ set ps i (embryo_of m parent name (get_or ps i no_proc))))
      index
      (taken (suc i) (omega arith) free
        (elim [ zero ↦ λ h. u | suc j ↦ λ h. below j (omega arith) ]))
  where
    index : k + suc i ≡ k + 1 + i
    index = omega arith
skip_used k parent name p ps u (table_full all) =
    table_full (elim [ zero ↦ λ h. u | suc j ↦ λ h. all j (omega arith) ])

choose_slot :
    (k parent : ℕ) (name : Option (List ℕ)) (p : Proc) (ps : List Proc) (r : Option ℕ × List Proc)
    (b : Bool)
    → is_unused p.state ≡ b
    → AllocCase (k + 1) parent name ps r
    → AllocCase k parent name
        (p ∷ ps)
        (if not b then (r.0, p ∷ r.1) else (some k, embryo_of k parent name p ∷ ps))
choose_slot k parent name p ps r false u rest = skip_used k parent name p ps u rest
choose_slot k parent name p ps r true u rest =
    subst (λ m. AllocCase k parent name (p ∷ ps) (some m, embryo_of m parent name p ∷ ps)) index
      (taken zero (omega arith) u (λ j h. absurd (omega arith)))
  where
    index : k + zero ≡ k
    index = omega arith

pub alloc_from-cases :
    (k parent : ℕ) (name : Option (List ℕ)) (table : List Proc)
    → AllocCase k parent name table (alloc_from k parent name table)
unfolding alloc_from
alloc_from-cases k parent name [] = table_full (λ j h. absurd (omega arith))
alloc_from-cases k parent name (p ∷ ps) =
    choose_slot k parent name p ps _ (is_unused p.state) refl
      (alloc_from-cases (k + 1) parent name ps)

embryo_of-fields :
    (m parent : ℕ) (name : Option (List ℕ)) (p : Proc)
    → ((embryo_of m parent name p).pid ≡ m + 1)
      × ((embryo_of m parent name p).parent_pid ≡ parent)
      × ((embryo_of m parent name p).state ≡ embryo)
unfolding copy_name
embryo_of-fields m parent none p = (refl, refl, refl)
embryo_of-fields m parent (some n) p = (refl, refl, refl)

abbrev use_of : Proc → ℕ
use_of p = if is_unused p.state then 0 else 1

-- Changing one slot changes the number of slots in use by that slot's part.
count_used-set :
    (table : List Proc) (i : ℕ) (p : Proc)
    → i < length table
    → count_used (set table i p) + use_of (get_or table i no_proc) ≡ count_used table + use_of p
unfolding count_used
count_used-set [] i p h = absurd (omega arith)
count_used-set (q ∷ qs) zero p h = ground arith
count_used-set (q ∷ qs) (suc i) p h = ground (arith, count_used-set qs i p)

-- What a successful allocation of slot `i` gives.
pub record Created (i : ℕ) (s : Procs) (out : Option ℕ × Procs) : Type 0 where
  pub first : (j : ℕ) → j < i → is_unused (slot s j).state ≡ false
  pub free : is_unused (slot s i).state ≡ true
  pub result : out.0 ≡ some i
  pub pid : (slot out.1 i).pid ≡ i + 1
  pub parent : (slot out.1 i).parent_pid ≡ current_pid s
  pub state : (slot out.1 i).state ≡ embryo
  pub others : (j : ℕ) → i ≢ j → slot out.1 j ≡ slot s j
  pub same_current : out.1.current ≡ s.current
  pub count : proc_count out.1 ≡ proc_count s + 1

created :
    (i : ℕ) (name : Option (List ℕ)) (s : Procs)
    → i < length s.table
    → is_unused (slot s i).state ≡ true
    → ((j : ℕ) → j < i → is_unused (slot s j).state ≡ false)
    → Created i s (some i, put_slot s i (embryo_of i (current_pid s) name (slot s i)))
unfolding proc_count
created i name s lt free below = record {
  first = below;
  free = free;
  result = refl;
  pid = ap (λ p. p.pid) there ∙ fields.0;
  parent = ap (λ p. p.parent_pid) there ∙ fields.1;
  state = ap (λ p. p.state) there ∙ fields.2;
  others = λ j ne. get_or-set_ne s.table i j _ no_proc ne;
  same_current = refl;
  count = omega (arith, count_used-set s.table i q lt, used_after, used_before);
}
  where
    q : Proc
    q = embryo_of i (current_pid s) name (slot s i)

    there : slot (put_slot s i q) i ≡ q
    there = get_or-set_self s.table i q no_proc lt

    fields : (q.pid ≡ i + 1) × (q.parent_pid ≡ current_pid s) × (q.state ≡ embryo)
    fields = embryo_of-fields i (current_pid s) name (slot s i)

    used_after : use_of q ≡ 1
    used_after = rw fields.2 refl

    used_before : use_of (slot s i) ≡ 0
    used_before = rw free refl

AllocCase-Created :
    {s : Procs} {name : Option (List ℕ)} {r : Option ℕ × List Proc}
    → IsValid s
    → AllocCase 0 (current_pid s) name s.table r
    → IsValid (record s { table = r.1 })
      × (((i : ℕ) × (i < proc_max) × Created i s (r.0, record s { table = r.1 }))
          ⊎ ((r.0 ≡ none)
              × (r.1 ≡ s.table)
              × ((j : ℕ) → j < proc_max → is_unused (slot s j).state ≡ false)))
AllocCase-Created {s} v (table_full all) = (v, inr (refl, refl, λ j h. all j (rw v.slots h)))
AllocCase-Created {s} {name} v (taken i lt free below) =
    subst
      (λ m.
        IsValid (put_slot s i (embryo_of m (current_pid s) name (slot s i)))
        × (((k : ℕ) × (k < proc_max)
              × Created k s (some m, put_slot s i (embryo_of m (current_pid s) name (slot s i))))
            ⊎ ((some m ≡ none)
                × (set s.table i (embryo_of m (current_pid s) name (slot s i)) ≡ s.table)
                × ((j : ℕ) → j < proc_max → is_unused (slot s j).state ≡ false))))
      index (valid, inl (i, inside, created i name s lt free below))
  where
    inside : i < proc_max
    inside = omega (arith, v.slots)

    index : i ≡ 0 + i
    index = omega arith

    fields :
        ((embryo_of i (current_pid s) name (slot s i)).pid ≡ i + 1)
        × ((embryo_of i (current_pid s) name (slot s i)).parent_pid ≡ current_pid s)
        × ((embryo_of i (current_pid s) name (slot s i)).state ≡ embryo)
    fields = embryo_of-fields i (current_pid s) name (slot s i)

    valid : IsValid (put_slot s i (embryo_of i (current_pid s) name (slot s i)))
    valid = put_slot-IsValid i _ v inside (λ u. fields.0) (rw fields.2 refl) (λ e. rw fields.2 refl)

-- `proc_alloc` takes the first slot that is not in use, gives it the PID of its position, the
-- caller as parent and the state EMBRYO, and leaves every other slot alone, so that one more is in
-- use; it fails, and changes nothing, only when all slots are in use. The table stays valid.
pub proc_alloc-Created :
    (name : Option (List ℕ)) {s : Procs}
    → IsValid s
    → IsValid (proc_alloc name s).1
      × (((i : ℕ) × (i < proc_max) × Created i s (proc_alloc name s))
          ⊎ (((proc_alloc name s).0 ≡ none)
              × ((proc_alloc name s).1.table ≡ s.table)
              × ((j : ℕ) → j < proc_max → is_unused (slot s j).state ≡ false)))
unfolding proc_alloc
proc_alloc-Created name {s} v =
    AllocCase-Created v (alloc_from-cases 0 (current_pid s) name s.table)

-- Freeing a slot other than that of the running process keeps the table valid.
pub proc_free-IsValid :
    (i : ℕ) {s : Procs}
    → IsValid s
    → i < proc_max
    → s.current ≢ some i
    → IsValid (proc_free (some i) s)
unfolding proc_free zero_proc
proc_free-IsValid i v lt other = put_slot-IsValid i _ v lt (λ u. cc) refl (λ e. absurd (other e))

proc_get_found :
    (pid i : ℕ) (s : Procs)
    → proc_get (pos pid) s ≡ some i
    → (i + 1 ≡ pid) × (i < proc_max) × (is_unused (slot s (pid - 1)).state ≡ false)
unfolding proc_get
proc_get_found pid i s e = elim (Bool-cases (ltb pid 1 || ltb proc_max pid)) [
  | inl out ↦ cc (sym (rw out at e))
  | inr inside ↦ elim (Bool-cases (is_unused (slot s (pid - 1)).state)) [
    | inl free ↦ cc (sym (rw (inside, free) at e))
    | inr used ↦
        let at_pid : some (pid - 1) ≡ some i = rw (inside, used) at e in
        (ground arith, ground arith, used)
  ]
]

proc_get_of :
    (i : ℕ) (s : Procs)
    → i < proc_max
    → is_unused (slot s i).state ≡ false
    → proc_get (pos (i + 1)) s ≡ some i
unfolding proc_get
proc_get_of i s lt used = let same : i + 1 - 1 ≡ i = omega arith in rw (same, used) (ground arith)

-- In a valid table a lookup by PID finds slot `i` exactly when that slot is in use with that PID.
pub proc_get_iff :
    (pid i : ℕ) {s : Procs}
    → IsValid s
    → (proc_get (pos pid) s ≡ some i)
      ↔ ((i < proc_max) × (is_unused (slot s i).state ≡ false) × ((slot s i).pid ≡ pid))
proc_get_iff pid i {s} v = (found, back)
  where
    found :
        proc_get (pos pid) s ≡ some i
        → (i < proc_max) × (is_unused (slot s i).state ≡ false) × ((slot s i).pid ≡ pid)
    found e =
        let (at_pid, lt, used) = proc_get_found pid i s e in
        let same : pid - 1 ≡ i = omega arith in
        let used_i : is_unused (slot s i).state ≡ false =
          subst (λ m. is_unused (slot s m).state ≡ false) same used in
        (lt, used_i, v.pids i lt used_i ∙ at_pid)

    back :
        (i < proc_max) × (is_unused (slot s i).state ≡ false) × ((slot s i).pid ≡ pid)
        → proc_get (pos pid) s ≡ some i
    back h =
        let pid_of : pid ≡ i + 1 = omega (arith, v.pids i h.0 h.1, h.2) in
        rw pid_of (proc_get_of i s h.0 h.1)
