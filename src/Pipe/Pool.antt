-- ===== src/Pipe/Pool.antt =====
-- `pipe_alloc`: the slots of the pool and their handles.
use stink_os.Base.{
  ℕ, zero, suc, ◌+◌, ◌<◌, ◌≡◌, ◌≢◌, ◌⊎◌, refl, ap, ◌∙◌, pos, List, [], ◌∷◌, Bool, true, false,
  length, set, arith, length-set, Bool-cases, inl, inr, some, none, Option, if◌then◌else◌, subst,
  get_or-set_self, get_or-set_ne, ◌==◌, ◌||◌, ℕ_discrete,
}
use stink_os.Pipe.{
  Pipe, pipe_max, slot, closed_slot, opened, alloc_from, handles, pipe_alloc, get_pipe, end_read,
  end_write, make_handle, handle_idx,
}
use stink_os.Base.Ring.{window}
use stink_os.Pipe.Buffer.{IsValid, contents}

pub record PoolValid (pool : List Pipe) : Type 0 where
  pub slots : length pool ≡ pipe_max
  pub each : (i : ℕ) → i < pipe_max → IsValid (slot pool i)

-- The slot that the search takes is the first one that is not in use.
pub data AllocCase (k : ℕ) (pool : List Pipe) : Option ℕ × List Pipe → Type 0 where
  taken :
      (i : ℕ)
      → i < length pool
      → (slot pool i).used ≡ false
      → ((j : ℕ) → j < i → (slot pool j).used ≡ true)
      → AllocCase k pool (some (k + i), set pool i (opened (slot pool i)))
  table_full :
      ((j : ℕ) → j < length pool → (slot pool j).used ≡ true) → AllocCase k pool (none, pool)

skip_used :
    (k : ℕ) (p : Pipe) (ps : List Pipe) {r : Option ℕ × List Pipe}
    → p.used ≡ true
    → AllocCase (k + 1) ps r
    → AllocCase k (p ∷ ps) (r.0, p ∷ r.1)
skip_used k p ps u (taken i lt free below) =
    subst (λ m. AllocCase k (p ∷ ps) (some m, p ∷ set ps i (opened (slot ps i)))) index
      (taken (suc i) (omega arith) free
        (elim [ zero ↦ λ h. u | suc j ↦ λ h. below j (omega arith) ]))
  where
    index : k + suc i ≡ k + 1 + i
    index = omega arith
skip_used k p ps u (table_full all) =
    table_full (elim [ zero ↦ λ h. u | suc j ↦ λ h. all j (omega arith) ])

choose_slot :
    (k : ℕ) (p : Pipe) (ps : List Pipe) (r : Option ℕ × List Pipe) (b : Bool)
    → p.used ≡ b
    → AllocCase (k + 1) ps r
    → AllocCase k (p ∷ ps) (if b then (r.0, p ∷ r.1) else (some k, opened p ∷ ps))
choose_slot k p ps r true u rest = skip_used k p ps u rest
choose_slot k p ps r false u rest =
    subst (λ m. AllocCase k (p ∷ ps) (some m, opened p ∷ ps)) index
      (taken zero (omega arith) u (λ j h. absurd (omega arith)))
  where
    index : k + zero ≡ k
    index = omega arith

alloc_from-cases : (k : ℕ) (pool : List Pipe) → AllocCase k pool (alloc_from k pool)
unfolding alloc_from
alloc_from-cases k [] = table_full (λ j h. absurd (omega arith))
alloc_from-cases k (p ∷ ps) = choose_slot k p ps _ p.used refl (alloc_from-cases (k + 1) ps)

-- The handles of slot `i`, once it is open.
pub get_pipe_of_used :
    (i e : ℕ) (pool : List Pipe)
    → i < pipe_max
    → e < 2
    → (slot pool i).used ≡ true
    → get_pipe (pos (make_handle i e)) e pool ≡ some i
unfolding get_pipe
get_pipe_of_used i e pool lt end_bit u = rw (idx, u) (ground arith)
  where
    idx : handle_idx (make_handle i e) ≡ i
    idx = omega arith

opened-IsValid : {p : Pipe} → IsValid p → IsValid (opened p)
opened-IsValid v = omega (arith, v)

-- What a successful allocation of slot `i` gives.
pub record Opened (i : ℕ) (pool : List Pipe) (out : Option (ℕ × ℕ) × List Pipe) : Type 0 where
  pub first : (j : ℕ) → j < i → (slot pool j).used ≡ true
  pub free : (slot pool i).used ≡ false
  pub result : out.0 ≡ some (make_handle i end_read, make_handle i end_write)
  pub reads : get_pipe (pos (make_handle i end_read)) end_read out.1 ≡ some i
  pub writes : get_pipe (pos (make_handle i end_write)) end_write out.1 ≡ some i
  pub empty : contents (slot out.1 i) ≡ []
  pub others : (j : ℕ) → i ≢ j → slot out.1 j ≡ slot pool j

pub set-PoolValid :
    {pool : List Pipe} (i : ℕ) (p : Pipe)
    → PoolValid pool
    → i < pipe_max
    → IsValid p
    → PoolValid (set pool i p)
set-PoolValid {pool} i p v lt ok = record {
  slots = length-set pool i p ∙ v.slots;
  each = λ j h. elim (ℕ_discrete i j) [
    | yes e ↦ rw (← e, get_or-set_self pool i p closed_slot (rw v.slots lt)) ok
    | no ne ↦ rw (get_or-set_ne pool i j p closed_slot ne) (v.each j h)
  ];
}

AllocCase-PoolValid :
    {k : ℕ} {pool : List Pipe} {r : Option ℕ × List Pipe}
    → PoolValid pool
    → AllocCase k pool r
    → PoolValid r.1
AllocCase-PoolValid v (taken i lt free below) =
    set-PoolValid i _ v (omega (arith, v.slots))
      (opened-IsValid (v.each i (omega (arith, v.slots))))
AllocCase-PoolValid v (table_full all) = v

AllocCase-Opened :
    {pool : List Pipe} {r : Option ℕ × List Pipe}
    → PoolValid pool
    → AllocCase 0 pool r
    → ((i : ℕ) × (i < pipe_max) × Opened i pool (handles r.0, r.1))
      ⊎ ((handles r.0 ≡ none) × (r.1 ≡ pool) × ((j : ℕ) → j < pipe_max → (slot pool j).used ≡ true))
AllocCase-Opened v (table_full all) = inr (refl, refl, λ j h. all j (omega (arith, v.slots)))
AllocCase-Opened {pool} v (taken i lt free below) = inl (
  i,
  omega (arith, v.slots),
  record {
    first = below;
    free = free;
    result = ap (λ m. handles (some m)) index;
    reads = get_pipe_of_used i 0 _ (omega (arith, v.slots)) (omega arith) in_use;
    writes = get_pipe_of_used i 1 _ (omega (arith, v.slots)) (omega arith) in_use;
    empty = rw there (unfold window in refl);
    others = λ j ne. get_or-set_ne pool i j _ closed_slot ne;
  },
)
  where
    index : 0 + i ≡ i
    index = omega arith

    there : slot (set pool i (opened (slot pool i))) i ≡ opened (slot pool i)
    there = get_or-set_self pool i _ closed_slot lt

    in_use : (slot (set pool i (opened (slot pool i))) i).used ≡ true
    in_use = ap (λ p. p.used) there

-- With both pointers given, `pipe_alloc` opens the first slot that is not in use, as an empty pipe
-- whose two handles then pass the handle check, and leaves the other slots alone; it fails only
-- when all slots are in use. The pool stays valid.
pub pipe_alloc-Opened :
    (rd wr : ℕ) (pool : List Pipe)
    → rd ≢ 0
    → wr ≢ 0
    → PoolValid pool
    → PoolValid (pipe_alloc rd wr pool).1
      × (((i : ℕ) × (i < pipe_max) × Opened i pool (pipe_alloc rd wr pool))
          ⊎ (((pipe_alloc rd wr pool).0 ≡ none)
              × ((pipe_alloc rd wr pool).1 ≡ pool)
              × ((j : ℕ) → j < pipe_max → (slot pool j).used ≡ true)))
unfolding pipe_alloc
pipe_alloc-Opened rd wr pool hr hw v =
    rw both (AllocCase-PoolValid v cases, AllocCase-Opened v cases)
  where
    both : (rd == 0 || wr == 0) ≡ false
    both = ground arith

    cases : AllocCase 0 pool (alloc_from 0 pool)
    cases = alloc_from-cases 0 pool

-- An allocation keeps the pool valid.
pub pipe_alloc-PoolValid :
    (rd wr : ℕ) {pool : List Pipe} → PoolValid pool → PoolValid (pipe_alloc rd wr pool).1
unfolding pipe_alloc
pipe_alloc-PoolValid rd wr {pool} v = elim (Bool-cases (rd == 0 || wr == 0)) [
  | inl null ↦ rw null v
  | inr given ↦ rw given (AllocCase-PoolValid v (alloc_from-cases 0 pool))
]

-- What an allocation makes of one slot: it leaves it alone, or opens it as an empty pipe.
pub data SlotCase (i : ℕ) (pool pool' : List Pipe) : Type 0 where
  left : slot pool' i ≡ slot pool i → SlotCase i pool pool'
  opens :
      (slot pool i).used ≡ false
      → (slot pool' i).used ≡ true
      → contents (slot pool' i) ≡ []
      → SlotCase i pool pool'

AllocCase-SlotCase :
    {k : ℕ} {pool : List Pipe} (i : ℕ) {r : Option ℕ × List Pipe}
    → AllocCase k pool r
    → SlotCase i pool r.1
AllocCase-SlotCase {pool = pool} i (taken j lt free below) = elim (ℕ_discrete j i) [
  | no ne ↦ left (get_or-set_ne pool j i _ closed_slot ne)
  | yes e ↦
      let there : slot (set pool j (opened (slot pool j))) j ≡ opened (slot pool j) =
        get_or-set_self pool j _ closed_slot lt in
      subst (λ n. SlotCase n pool (set pool j (opened (slot pool j)))) e
        (opens free (ap (λ p. p.used) there) (rw there (unfold window in refl)))
]
AllocCase-SlotCase i (table_full all) = left refl

pub pipe_alloc-SlotCase :
    (rd wr i : ℕ) (pool : List Pipe) → SlotCase i pool (pipe_alloc rd wr pool).1
unfolding pipe_alloc
pipe_alloc-SlotCase rd wr i pool = elim (Bool-cases (rd == 0 || wr == 0)) [
  | inl null ↦ rw null (left refl)
  | inr given ↦ rw given (AllocCase-SlotCase i (alloc_from-cases 0 pool))
]
