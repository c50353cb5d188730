-- ===== src/Pmm/Pool.antt =====
-- Freed frames and the pool: reuse in last-in first-out order, and the frames that a full list
-- cannot take.
use stink_os.Base.{
  ℕ, ◌+◌, ◌-◌, ◌<◌, ◌≡◌, ◌≢◌, refl, sym, ◌∙◌, ap, List, [], ◌∷◌, arith, All, ltb, if◌then◌else◌,
}
use stink_os.Pmm.{Pmm, frame_base, free_max, put_ref, pmm_free, pmm_alloc, pmm_free_pages}
use stink_os.Pmm.Inv.{
  refs, listed, IsFrame, IsBounded, IsValid, refs-put_self, refs-put_ne, put_ref-IsBounded,
}
use stink_os.Pmm.Alloc.{AllocCase, recycled, fresh, exhausted, pmm_alloc-cases, pmm_alloc-IsValid}
use stink_os.Pmm.Free.{
  FreeCase, foreign, unowned, shared, returned, dropped, pmm_free-cases, owned_below, owned_apart,
  pmm_free-IsValid, pushed, listed-pushed, listed-pushed_new,
}

FreeCase-last :
    {s : Pmm} {f : ℕ} {s' : Pmm}
    → FreeCase s f s'
    → IsFrame s f
    → refs s f ≡ 1
    → s' ≡ (if ltb s.free_count free_max then pushed f (put_ref s f 0) else put_ref s f 0)
FreeCase-last (foreign out) hf one = absurd (out hf)
FreeCase-last (unowned _ z) hf one = absurd (omega arith)
FreeCase-last (shared _ more) hf one = absurd (omega arith)
FreeCase-last (returned _ _ room) hf one = ground arith
FreeCase-last (dropped _ _ full) hf one = ground arith

pmm_free_last :
    {s : Pmm} (addr : ℕ)
    → IsBounded s
    → IsFrame s (frame_base addr)
    → refs s (frame_base addr) ≡ 1
    → pmm_free addr s ≡ (
        if ltb s.free_count free_max
        then pushed (frame_base addr) (put_ref s (frame_base addr) 0)
        else put_ref s (frame_base addr) 0)
pmm_free_last addr b hf one = FreeCase-last (pmm_free-cases addr b) hf one

pmm_alloc-pushed : (f : ℕ) (s : Pmm) → (pmm_alloc (pushed f s)).0 ≡ listed (pushed f s) s.free_count
unfolding pmm_alloc
pmm_alloc-pushed f s = ground arith

-- When the last owner of a frame frees it and the list has room, one more page is free, and the
-- next allocation hands out that very frame.
pub pmm_alloc-pmm_free :
    {s : Pmm} (addr : ℕ)
    → IsValid s
    → IsFrame s (frame_base addr)
    → refs s (frame_base addr) ≡ 1
    → s.free_count < free_max
    → (pmm_free_pages (pmm_free addr s) ≡ pmm_free_pages s + 1)
      × ((pmm_alloc (pmm_free addr s)).0 ≡ frame_base addr)
unfolding pmm_free_pages
pmm_alloc-pmm_free {s} addr v hf one room = rw freed (
  omega (arith, v.bounds),
  pmm_alloc-pushed f (put_ref s f 0)
      ∙ listed-pushed_new f (put_ref-IsBounded {s = s} f 0 v.bounds) room,
)
  where
    f : ℕ
    f = frame_base addr

    freed : pmm_free addr s ≡ pushed f (put_ref s f 0)
    freed = ground (arith, pmm_free_last addr v.bounds hf one)

-- A frame below the watermark with no owner that is on no list.
pub record Lost (s : Pmm) (f : ℕ) : Type 0 where
  pub frame : IsFrame s f
  pub below : f < s.next_frame
  pub no_owner : refs s f ≡ 0
  pub unlisted : (i : ℕ) → i < s.free_count → f ≢ listed s i

-- When the last owner of a frame frees it while the list holds its 1024 entries, the frame is
-- lost, and no more pages are free than before.
pub pmm_free-Lost :
    {s : Pmm} (addr : ℕ)
    → IsValid s
    → IsFrame s (frame_base addr)
    → refs s (frame_base addr) ≡ 1
    → s.free_count ≡ free_max
    → Lost (pmm_free addr s) (frame_base addr)
      × (pmm_free_pages (pmm_free addr s) ≡ pmm_free_pages s)
unfolding pmm_free_pages
pmm_free-Lost {s} addr v hf one full = rw freed (
  record {
    frame = omega (arith, hf);
    below = owned_below f v hf (omega arith);
    no_owner = refs-put_self {s = s} f 0 v.bounds hf;
    unlisted = owned_apart f v (omega arith);
  },
  refl,
)
  where
    f : ℕ
    f = frame_base addr

    freed : pmm_free addr s ≡ put_ref s f 0
    freed = ground (arith, pmm_free_last addr v.bounds hf one)

-- Calls of the allocator, and the frames that a sequence of them hands out.
pub data Call : Type 0 where
  alloc : Call
  free : ℕ → Call

pub handed_out : List Call → Pmm → List ℕ
handed_out [] s = []
handed_out (alloc ∷ calls) s = let (f, s') = pmm_alloc s in f ∷ handed_out calls s'
handed_out (free addr ∷ calls) s = handed_out calls (pmm_free addr s)

AllocCase-Lost :
    {s : Pmm} {r : ℕ × Pmm} (f : ℕ) → IsValid s → AllocCase s r → Lost s f → (r.0 ≢ f) × Lost r.1 f
AllocCase-Lost {s} f v (recycled g pos e) l = (
  other,
  record {
    frame = omega (arith, l.frame);
    below = l.below;
    no_owner = refs-put_ne {s = s} g f 1 v.bounds hg l.frame other ∙ l.no_owner;
    unlisted = λ i h. l.unlisted i (omega arith);
  },
)
  where
    hg : IsFrame s g
    hg = rw e (v.free_IsFrame _ (omega arith))

    other : g ≢ f
    other q = l.unlisted (s.free_count - 1) (omega arith) (sym q ∙ e)
AllocCase-Lost {s} f v (fresh none_free room) l = (
  other,
  record {
    frame = omega (arith, l.frame);
    below = omega (arith, l.below);
    no_owner = refs-put_ne {s = s} s.next_frame f 1 v.bounds hn l.frame other ∙ l.no_owner;
    unlisted = l.unlisted;
  },
)
  where
    hn : IsFrame s s.next_frame
    hn = omega (arith, v.bounds)

    other : s.next_frame ≢ f
    other = omega (arith, l.below)
AllocCase-Lost {s} f v (exhausted none_free full) l = (
  omega (arith, v.bounds, l.frame),
  record {
    frame = omega (arith, l.frame);
    below = l.below;
    no_owner = l.no_owner;
    unlisted = l.unlisted;
  },
)

put_ref-Lost :
    {s : Pmm} (g n f : ℕ) → IsBounded s → IsFrame s g → Lost s f → g ≢ f → Lost (put_ref s g n) f
put_ref-Lost {s} g n f b hg l ne = record {
  frame = omega (arith, l.frame);
  below = l.below;
  no_owner = refs-put_ne {s = s} g f n b hg l.frame ne ∙ l.no_owner;
  unlisted = l.unlisted;
}

FreeCase-Lost :
    {s : Pmm} {g : ℕ} {s' : Pmm} (f : ℕ) → IsValid s → FreeCase s g s' → Lost s f → Lost s' f
FreeCase-Lost f v (foreign out) l = l
FreeCase-Lost f v (unowned hg z) l = l
FreeCase-Lost {s} {g = g} f v (shared hg more) l = put_ref-Lost g _ f v.bounds hg l other
  where
    other : g ≢ f
    other q = absurd (omega (arith, ap (refs s) q, l.no_owner))
FreeCase-Lost {s} {g = g} f v (returned hg one room) l =
    let after = put_ref-Lost g 0 f v.bounds hg l other in
    record {
      frame = omega (arith, after.frame);
      below = after.below;
      no_owner = after.no_owner;
      unlisted =
          listed-pushed {s = put_ref s g 0} g (λ h. f ≢ h) (put_ref-IsBounded {s = s} g 0 v.bounds)
            room (λ q. other (sym q)) l.unlisted;
    }
  where
    other : g ≢ f
    other q = absurd (omega (arith, ap (refs s) q, l.no_owner))
FreeCase-Lost {s} {g = g} f v (dropped hg one full) l = put_ref-Lost g 0 f v.bounds hg l other
  where
    other : g ≢ f
    other q = absurd (omega (arith, ap (refs s) q, l.no_owner))

-- No sequence of allocations and frees, whatever they free, hands a lost frame out again.
pub handed_out-ne_Lost :
    (calls : List Call) (s : Pmm) (f : ℕ)
    → IsValid s
    → Lost s f
    → All (λ g. g ≢ f) (handed_out calls s)
unfolding handed_out
handed_out-ne_Lost [] s f v l = tt
handed_out-ne_Lost (alloc ∷ calls) s f v l =
    let (ne, after) = AllocCase-Lost f v (pmm_alloc-cases v.bounds) l in
    (ne, handed_out-ne_Lost calls _ f (pmm_alloc-IsValid v) after)
handed_out-ne_Lost (free addr ∷ calls) s f v l =
    handed_out-ne_Lost calls _ f (pmm_free-IsValid addr v)
      (FreeCase-Lost f v (pmm_free-cases addr v.bounds) l)
