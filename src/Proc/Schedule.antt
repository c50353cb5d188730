-- ===== src/Proc/Schedule.antt =====
-- `next_ready` and `proc_yield`: which process runs next.
use stink_os.Base.{
  ℕ, zero, suc, ◌+◌, ◌%◌, ◌≤◌, ◌<◌, ◌≡◌, refl, sym, ap, subst, List, Bool, true, false, get_or,
  arith, some, none, Option, if◌then◌else◌, ℕ_discrete, ◌&&◌, ltb,
}
use stink_os.Proc.{Proc, Procs, is_ready, no_proc, proc_max, next_from, next_ready}

module _ (table : List Proc) (from : ℕ) where
  -- The slot looked at in round `r`, which is slot `from` itself in the last one, round 16.
  abbrev pub round : ℕ → Proc
  round r = get_or table ((from + r) % proc_max) no_proc

  -- `b` is the slot of a round `r` that the search would take among the rounds before `i`: ready,
  -- no other ready slot has a smaller priority number, and none of an earlier round an equal one.
  pub record Best (i bp b : ℕ) : Type 0 where
    pub at : ℕ
    pub at_from : 1 ≤ at
    pub at_to : at < i
    pub index : b ≡ (from + at) % proc_max
    pub is_candidate : is_ready (round at).state ≡ true
    pub prio : (round at).priority ≡ bp
    pub valid : bp < 32
    pub earliest :
        (r : ℕ) → 1 ≤ r → r < at → is_ready (round r).state ≡ true → bp < (round r).priority

  abbrev pub Found : ℕ → ℕ → Option ℕ → Type 0
  Found i bp none = bp ≡ 32
  Found i bp (some b) = Best i bp b

  pub record Scanned (i bp : ℕ) (bi : Option ℕ) : Type 0 where
    pub least : (r : ℕ) → 1 ≤ r → r < i → is_ready (round r).state ≡ true → bp ≤ (round r).priority
    pub found : Found i bp bi

  Found-step : (i bp : ℕ) (bi : Option ℕ) → Found i bp bi → Found (i + 1) bp bi
  Found-step i bp none f = f
  Found-step i bp (some b) f = record {
    at = f.at;
    at_from = f.at_from;
    at_to = omega (arith, f.at_to);
    index = f.index;
    is_candidate = f.is_candidate;
    prio = f.prio;
    valid = f.valid;
    earliest = f.earliest;
  }

  Found-bound : (i bp : ℕ) (bi : Option ℕ) → Found i bp bi → bp ≤ 32
  Found-bound i bp none f = omega arith
  Found-bound i bp (some b) f = omega (arith, f.valid)

  step_better :
      (i bp : ℕ) (bi : Option ℕ)
      → 1 ≤ i
      → is_ready (round i).state ≡ true
      → (round i).priority < bp
      → Scanned i bp bi
      → Scanned (i + 1) (round i).priority (some ((from + i) % proc_max))
  step_better i bp bi pos cand lt s = record {
    least = λ r lo hi c. elim (ℕ_discrete r i) [
      | yes e ↦ omega (arith, ap (λ k. (round k).priority) e)
      | no ne ↦ omega (arith, s.least r lo (omega arith) c)
    ];
    found = record {
      at = i;
      at_from = pos;
      at_to = omega arith;
      index = refl;
      is_candidate = cand;
      prio = refl;
      valid = omega (arith, Found-bound i bp bi s.found);
      earliest = λ r lo hi c. omega (arith, s.least r lo hi c);
    };
  }

  step_same :
      (i bp : ℕ) (bi : Option ℕ)
      → (is_ready (round i).state ≡ true → bp ≤ (round i).priority)
      → Scanned i bp bi
      → Scanned (i + 1) bp bi
  step_same i bp bi not_better s = record {
    least = λ r lo hi c. elim (ℕ_discrete r i) [
      | yes e ↦ omega (
        arith,
        ap (λ k. (round k).priority) e,
        not_better (subst (λ k. is_ready (round k).state ≡ true) e c),
      )
      | no ne ↦ s.least r lo (omega arith) c
    ];
    found = Found-step i bp bi s.found;
  }

  step_any :
      (i bp : ℕ) (bi : Option ℕ) (b : Bool)
      → 1 ≤ i
      → (is_ready (round i).state && ltb (round i).priority bp) ≡ b
      → Scanned i bp bi
      → Scanned
          (i + 1)
          (if b then (round i).priority else bp)
          (if b then some ((from + i) % proc_max) else bi)
  step_any i bp bi true pos e s = step_better i bp bi pos (ground arith) (ground arith) s
  step_any i bp bi false pos e s = step_same i bp bi (λ c. ground arith) s

  next_from-Scanned :
      (left i bp : ℕ) (bi : Option ℕ)
      → 1 ≤ i
      → Scanned i bp bi
      → (bp' : ℕ) × Scanned (i + left) bp' (next_from table from left i bp bi)
  unfolding next_from
  next_from-Scanned zero i bp bi pos s = (bp, subst (λ k. Scanned k bp bi) same s)
    where
      same : i ≡ i + zero
      same = omega arith
  next_from-Scanned (suc left) i bp bi pos s =
      let (bp', rest) =
        next_from-Scanned left (i + 1) _ _ (omega arith)
          (step_any i bp bi (is_ready (round i).state && ltb (round i).priority bp) pos refl s) in
      (bp', rw (sym shift) rest)
    where
      shift : i + 1 + left ≡ i + suc left
      shift = omega arith

  abbrev pub Choice : Option ℕ → Type 0
  Choice none =
      (r : ℕ) → 1 ≤ r → r ≤ proc_max → is_ready (round r).state ≡ true → 32 ≤ (round r).priority
  Choice (some b) =
      (bp : ℕ) × Best (proc_max + 1) bp b
      × ((r : ℕ) → 1 ≤ r → r ≤ proc_max → is_ready (round r).state ≡ true → bp ≤ (round r).priority)

  Scanned-Choice : (bp : ℕ) (o : Option ℕ) → Scanned (1 + proc_max) bp o → Choice o
  Scanned-Choice bp none s = λ r lo hi c. omega (arith, s.least r lo (omega arith) c, s.found)
  Scanned-Choice bp (some b) s = (bp, s.found, λ r lo hi c. s.least r lo (omega arith) c)

-- The scheduler's choice, looking round the table once from the slot after `from`: a ready process
-- with the smallest priority number of all ready ones, the first in that order among equals; none
-- only if no process with a priority number below 32 is ready.
pub next_ready-Choice : (from : ℕ) (s : Procs) → Choice s.table from (next_ready from s)
unfolding next_ready
next_ready-Choice from s =
    let (bp, done) = next_from-Scanned s.table from proc_max 1 32 none (omega arith) first in
    Scanned-Choice s.table from bp _ done
  where
    first : Scanned s.table from 1 32 none
    first = record { least = λ r lo hi c. absurd (omega arith); found = refl }
