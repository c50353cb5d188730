-- ===== src/Proc/Children.antt =====
-- `proc_find_zombie_child`, `proc_has_living_child` and `proc_reap`: what `wait` is made of.
use stink_os.Base.{
  ◌||◌, ◌&&◌, ℤ, ◌↔◌, ℕ, zero, suc, ◌+◌, ◌<◌, ◌≡◌, refl, subst, List, [], ◌∷◌, Bool, true, false,
  not, length, get_or, arith, Bool-cases, inl, inr, some, none, Option, if◌then◌else◌, ◌==◌,
}
use stink_os.Proc.{
  Proc, Procs, is_unused, is_zombie, no_proc, slot, is_child, find_zombie, proc_find_zombie_child,
  any_living, proc_has_living_child,
}

-- The first child that is a zombie, or that there is none.
pub data Zombie (me : ℕ) (pid : ℤ) (k : ℕ) (table : List Proc) : Option ℕ → Type 0 where
  found :
      (i : ℕ)
      → i < length table
      → is_child me pid (get_or table i no_proc) ≡ true
      → ((j : ℕ) → j < i → is_child me pid (get_or table j no_proc) ≡ false)
      → Zombie me pid k table (some (k + i))
  no_child :
      ((j : ℕ) → j < length table → is_child me pid (get_or table j no_proc) ≡ false)
      → Zombie me pid k table none

skip :
    (me : ℕ) (pid : ℤ) (k : ℕ) (p : Proc) (ps : List Proc) {r : Option ℕ}
    → is_child me pid p ≡ false
    → Zombie me pid (k + 1) ps r
    → Zombie me pid k (p ∷ ps) r
skip me pid k p ps u (found i lt c below) =
    subst (λ m. Zombie me pid k (p ∷ ps) (some m)) index
      (found (suc i) (omega arith) c (elim [ zero ↦ λ h. u | suc j ↦ λ h. below j (omega arith) ]))
  where
    index : k + suc i ≡ k + 1 + i
    index = omega arith
skip me pid k p ps u (no_child all) =
    no_child (elim [ zero ↦ λ h. u | suc j ↦ λ h. all j (omega arith) ])

choose :
    (me : ℕ) (pid : ℤ) (k : ℕ) (p : Proc) (ps : List Proc) (r : Option ℕ) (b : Bool)
    → is_child me pid p ≡ b
    → Zombie me pid (k + 1) ps r
    → Zombie me pid k (p ∷ ps) (if b then some k else r)
choose me pid k p ps r false u rest = skip me pid k p ps u rest
choose me pid k p ps r true u rest =
    subst (λ m. Zombie me pid k (p ∷ ps) (some m)) index
      (found zero (omega arith) u (λ j h. absurd (omega arith)))
  where
    index : k + zero ≡ k
    index = omega arith

find_zombie-Zombie :
    (me : ℕ) (pid : ℤ) (k : ℕ) (table : List Proc)
    → Zombie me pid k table (find_zombie me pid k table)
unfolding find_zombie
find_zombie-Zombie me pid k [] = no_child (λ j h. absurd (omega arith))
find_zombie-Zombie me pid k (p ∷ ps) =
    choose me pid k p ps _ (is_child me pid p) refl (find_zombie-Zombie me pid (k + 1) ps)

-- While process `r` runs, the search for a zombie gives the first slot that is a zombie, has
-- process `r` as its parent and, if the PID asked for is positive, has that PID; it gives none
-- exactly when no slot is like that.
pub proc_find_zombie_child-Zombie :
    {s : Procs} (pid : ℤ) (r : ℕ)
    → s.current ≡ some r
    → Zombie (slot s r).pid pid 0 s.table (proc_find_zombie_child pid s)
unfolding proc_find_zombie_child
proc_find_zombie_child-Zombie {s} pid r cur =
    rw cur (find_zombie-Zombie (slot s r).pid pid 0 s.table)

abbrev pub is_living : ℕ → Proc → Bool
is_living me p = not (is_unused p.state || is_zombie p.state) && p.parent_pid == me

any_living-found :
    (me : ℕ) (table : List Proc)
    → any_living me table ≡ true
    → (i : ℕ) × (i < length table) × (is_living me (get_or table i no_proc) ≡ true)
unfolding any_living
any_living-found me [] e = cc e
any_living-found me (p ∷ ps) e = elim (Bool-cases (is_living me p)) [
  | inl here ↦ (0, omega arith, here)
  | inr gone ↦
      let (i, lt, there) = any_living-found me ps (ground arith) in (suc i, omega arith, there)
]

any_living-holds :
    (me : ℕ) (table : List Proc) (i : ℕ)
    → i < length table
    → is_living me (get_or table i no_proc) ≡ true
    → any_living me table ≡ true
unfolding any_living
any_living-holds me [] i lt e = absurd (omega arith)
any_living-holds me (p ∷ ps) zero lt e = ground arith
any_living-holds me (p ∷ ps) (suc i) lt e = ground (arith, any_living-holds me ps i (omega arith) e)

-- While process `r` runs, `proc_has_living_child` answers yes exactly when some slot is in use, is
-- not a zombie and has process `r` as its parent.
pub proc_has_living_child_iff :
    (s : Procs) (r : ℕ)
    → s.current ≡ some r
    → proc_has_living_child s ≡ true
      ↔ (i : ℕ) × (i < length s.table) × (is_living (slot s r).pid (slot s i) ≡ true)
unfolding proc_has_living_child
proc_has_living_child_iff s r cur = rw cur (
  any_living-found (slot s r).pid s.table,
  λ (i, lt, e). any_living-holds (slot s r).pid s.table i lt e,
)
