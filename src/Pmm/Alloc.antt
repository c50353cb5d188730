-- ===== src/Pmm/Alloc.antt =====
-- `pmm_alloc`: what it hands out.
use stink_os.Base.{
  ℕ, ◌+◌, ◌-◌, ◌≤◌, ◌<◌, ◌≡◌, ◌≢◌, ◌⊎◌, inl, inr, refl, sym, ◌∙◌, true, arith, ltb, leb, add32,
  Bool-cases,
}
use stink_os.Pmm.{Pmm, frame_size, put_ref, pmm_alloc, pmm_free_pages}
use stink_os.Pmm.Inv.{
  refs, listed, IsFrame, IsBounded, IsValid, refs-put_self, refs-put_ne, put_ref-IsBounded,
}

-- The three branches.
abbrev pub popped : Pmm → Pmm
popped s = record s { free_count = s.free_count - 1 }

abbrev pub bumped : Pmm → Pmm
bumped s = record s { next_frame = s.next_frame + frame_size }

pub data AllocCase (s : Pmm) : ℕ × Pmm → Type 0 where
  recycled :
      (f : ℕ)
      → 0 < s.free_count
      → f ≡ listed s (s.free_count - 1)
      → AllocCase s (f, put_ref (popped s) f 1)
  fresh :
      s.free_count ≡ 0
      → s.next_frame + frame_size ≤ s.end_frame
      → AllocCase s (s.next_frame, put_ref (bumped s) s.next_frame 1)
  exhausted :
      s.free_count ≡ 0
      → s.next_frame ≡ s.end_frame
      → AllocCase s (0, record s { oom_warned = true })

pub pmm_alloc-cases : {s : Pmm} → IsBounded s → AllocCase s (pmm_alloc s)
unfolding pmm_alloc
pmm_alloc-cases {s} b = elim (Bool-cases (ltb 0 s.free_count)) [
  | inl some_free ↦ rw some_free (recycled _ (ground arith) refl)
  | inr none_free ↦ elim (Bool-cases (leb (add32 s.next_frame frame_size) s.end_frame)) [
    | inl room ↦ rw (none_free, room, no_wrap) (fresh (ground arith) (ground arith))
    | inr full ↦ rw (none_free, full) (exhausted (ground arith) (ground arith))
  ]
]
  where
    no_wrap : add32 s.next_frame frame_size ≡ s.next_frame + frame_size
    no_wrap = omega arith

-- A frame that is handed out has no owner before and one after; it is a frame of the range, and
-- no other frame changes.
pub record Granted (s : Pmm) (f : ℕ) (s' : Pmm) : Type 0 where
  pub frame : IsFrame s f
  pub unowned : refs s f ≡ 0
  pub owned : refs s' f ≡ 1
  pub others : (g : ℕ) → IsFrame s g → f ≢ g → refs s' g ≡ refs s g

put_ref-Granted :
    (s s' : Pmm) (f : ℕ)
    → IsBounded s
    → IsFrame s f
    → refs s f ≡ 0
    → s'.start_frame ≡ s.start_frame
    → s'.refcount ≡ (put_ref s f 1).refcount
    → Granted s f s'
put_ref-Granted s s' f b hf z e q = record {
  frame = hf;
  unowned = z;
  owned = ground (arith, refs-put_self {s = s} f 1 b hf);
  others = λ g hg ne. ground (arith, refs-put_ne {s = s} f g 1 b hf hg ne);
}

next-IsFrame : {s : Pmm} → IsBounded s → s.next_frame < s.end_frame → IsFrame s s.next_frame
next-IsFrame b h = omega arith

AllocCase-Granted :
    {s : Pmm} {r : ℕ × Pmm} → IsValid s → AllocCase s r → r.0 ≢ 0 → Granted s r.0 r.1
AllocCase-Granted {s} v (recycled f pos e) ne =
    put_ref-Granted s _ f v.bounds (rw e (v.free_IsFrame _ (omega arith)))
      (rw e (v.free_unowned _ (omega arith))) refl refl
AllocCase-Granted {s} v (fresh none_free room) ne =
    put_ref-Granted s _ s.next_frame v.bounds frame (v.virgin _ frame (omega arith)) refl refl
  where
    frame : IsFrame s s.next_frame
    frame = next-IsFrame v.bounds (omega arith)
AllocCase-Granted v (exhausted none_free full) ne = absurd (ne refl)

-- An allocation from a valid allocator that does not return 0 hands out a page-aligned frame of
-- the managed range that has no owner, gives it exactly one, and changes the count of no other.
pub pmm_alloc-Granted :
    {s : Pmm} → IsValid s → (pmm_alloc s).0 ≢ 0 → Granted s (pmm_alloc s).0 (pmm_alloc s).1
pmm_alloc-Granted v ne = AllocCase-Granted v (pmm_alloc-cases v.bounds) ne

recycled-IsValid :
    {s : Pmm} (f : ℕ)
    → IsValid s
    → 0 < s.free_count
    → f ≡ listed s (s.free_count - 1)
    → IsValid (put_ref (popped s) f 1)
recycled-IsValid {s} f v pos e = record {
  bounds = put_ref-IsBounded {s = popped s} f 1 (omega (arith, v.bounds));
  free_IsFrame = λ i h. omega (arith, v.free_IsFrame i (omega arith));
  free_below = λ i h. v.free_below i (omega arith);
  free_unowned = λ i h.
      refs-put_ne {s = s} f (listed s i) 1 v.bounds hf (v.free_IsFrame i (omega arith))
        (λ q. v.distinct i (s.free_count - 1) (omega arith) (omega arith) (sym (sym e ∙ q)))
      ∙ v.free_unowned i (omega arith);
  distinct = λ i j p q. v.distinct i j p (omega arith);
  virgin = λ g hg p.
      refs-put_ne {s = s} f g 1 v.bounds hf (omega (arith, hg))
        (omega (arith, e, v.free_below (s.free_count - 1)))
      ∙ v.virgin g (omega (arith, hg)) p;
}
  where
    hf : IsFrame s f
    hf = rw e (v.free_IsFrame _ (omega arith))

fresh-IsValid :
    {s : Pmm}
    → IsValid s
    → s.free_count ≡ 0
    → s.next_frame + frame_size ≤ s.end_frame
    → IsValid (put_ref (bumped s) s.next_frame 1)
fresh-IsValid {s} v none_free room = record {
  bounds = put_ref-IsBounded {s = bumped s} s.next_frame 1 (omega (arith, v.bounds));
  free_IsFrame = λ i h. absurd (omega arith);
  free_below = λ i h. absurd (omega arith);
  free_unowned = λ i h. absurd (omega arith);
  distinct = λ i j p q. absurd (omega arith);
  virgin = λ g hg p.
      refs-put_ne {s = s} s.next_frame g 1 v.bounds frame (omega (arith, hg)) (omega arith)
      ∙ v.virgin g (omega (arith, hg)) (omega arith);
}
  where
    frame : IsFrame s s.next_frame
    frame = next-IsFrame v.bounds (omega arith)

AllocCase-IsValid : {s : Pmm} {r : ℕ × Pmm} → IsValid s → AllocCase s r → IsValid r.1
AllocCase-IsValid v (recycled f pos e) = recycled-IsValid f v pos e
AllocCase-IsValid v (fresh none_free room) = fresh-IsValid v none_free room
AllocCase-IsValid v (exhausted none_free full) = record {
  bounds = omega (arith, v.bounds);
  free_IsFrame = λ i h. omega (arith, v.free_IsFrame i h);
  free_below = v.free_below;
  free_unowned = v.free_unowned;
  distinct = v.distinct;
  virgin = λ g hg p. v.virgin g (omega (arith, hg)) p;
}

-- `pmm_alloc` keeps the invariant, also when memory is exhausted.
pub pmm_alloc-IsValid : {s : Pmm} → IsValid s → IsValid (pmm_alloc s).1
pmm_alloc-IsValid v = AllocCase-IsValid v (pmm_alloc-cases v.bounds)

AllocCase-free_pages :
    {s : Pmm} {r : ℕ × Pmm}
    → IsValid s
    → AllocCase s r
    → ((r.0 ≡ 0) × (pmm_free_pages s ≡ 0) × (pmm_free_pages r.1 ≡ 0))
      ⊎ ((r.0 ≢ 0) × (pmm_free_pages r.1 + 1 ≡ pmm_free_pages s))
unfolding pmm_free_pages
AllocCase-free_pages {s} v (recycled f pos e) =
    inr (omega (arith, e, v.bounds, frame.from_start), omega (arith, v.bounds))
  where
    frame : IsFrame s (listed s (s.free_count - 1))
    frame = v.free_IsFrame _ (omega arith)
AllocCase-free_pages v (fresh none_free room) =
    inr (omega (arith, v.bounds), omega (arith, v.bounds))
AllocCase-free_pages v (exhausted none_free full) =
    inl (refl, omega (arith, v.bounds), omega (arith, v.bounds))

-- An allocation fails only when `pmm_free_pages` is 0, and otherwise uses up exactly one of the
-- pages that it counts.
pub pmm_alloc-free_pages :
    {s : Pmm}
    → IsValid s
    → (((pmm_alloc s).0 ≡ 0) × (pmm_free_pages s ≡ 0) × (pmm_free_pages (pmm_alloc s).1 ≡ 0))
      ⊎ (((pmm_alloc s).0 ≢ 0) × (pmm_free_pages (pmm_alloc s).1 + 1 ≡ pmm_free_pages s))
pmm_alloc-free_pages v = AllocCase-free_pages v (pmm_alloc-cases v.bounds)
