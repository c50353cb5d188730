-- ===== src/Pmm/Tests.antt =====
-- The frame allocator on concrete input: a range from 4 MiB to 32 MiB, as `main.c` sets it up, and
-- one in which the free list is full.
use stink_os.Base.{
  ℕ, zero, suc, ◌+◌, ◌*◌, ◌<◌, ◌≡◌, ◌≢◌, refl, ◌∙◌, ap, List, [], ◌∷◌, length, get_or, set,
  replicate, arith, false, All, length-replicate, length-set, get_or-replicate, get_or-set_self,
  get_or-set_ne,
}
use stink_os.Pmm.{
  Pmm, frame_size, free_max, max_frames, frame_idx, pmm_init, pmm_alloc, pmm_free, pmm_ref,
  pmm_ref_inc,
}
use stink_os.Pmm.Inv.{refs, listed, IsFrame, IsValid, pmm_init-IsValid}
use stink_os.Pmm.Alloc.{Granted, pmm_alloc-Granted, pmm_alloc-IsValid}
use stink_os.Pmm.Free.{pmm_free-IsValid}
use stink_os.Pmm.Owners.{pmm_ref_inc-shares}
use stink_os.Pmm.Pool.{alloc, free, handed_out, pmm_free-Lost, handed_out-ne_Lost}

abbrev booted : Pmm
booted = pmm_init 0x400000 0x2000000 (replicate free_max 0)

booted-IsValid : IsValid booted
booted-IsValid =
    pmm_init-IsValid 0x400000 0x2000000 (replicate free_max 0) (omega arith) (omega arith)
      (omega arith) (omega arith) (length-replicate {A = ℕ} free_max 0)

first_frame : (pmm_alloc booted).0 ≡ 0x400000
unfolding pmm_alloc pmm_init
first_frame = refl

pmm_alloc-Granted_example : Granted booted (pmm_alloc booted).0 (pmm_alloc booted).1
pmm_alloc-Granted_example = pmm_alloc-Granted booted-IsValid (omega (arith, first_frame))

pmm_alloc-IsValid_example : IsValid (pmm_alloc booted).1
pmm_alloc-IsValid_example = pmm_alloc-IsValid booted-IsValid

-- One frame in use.
abbrev used : Pmm
used = (pmm_alloc booted).1

used-IsValid : IsValid used
used-IsValid = pmm_alloc-IsValid booted-IsValid

first-IsFrame : IsFrame used 0x400000
unfolding pmm_alloc pmm_init
first-IsFrame = record { from_start = omega arith; before_end = omega arith; aligned = refl }

first_owned : refs used 0x400000 ≡ 1
first_owned =
    ap (refs used) first_frame_rev
    ∙ (pmm_alloc-Granted booted-IsValid (omega (arith, first_frame))).owned
  where
    first_frame_rev : ◌≡◌ {A = ℕ} 0x400000 (pmm_alloc booted).0
    first_frame_rev = omega (arith, first_frame)

pmm_free-IsValid_example : IsValid (pmm_free 0x400000 used)
pmm_free-IsValid_example = pmm_free-IsValid 0x400000 used-IsValid

used_count : pmm_ref 0x400000 used ≡ 1
unfolding pmm_ref pmm_alloc pmm_init
used_count = first_owned

pmm_ref_inc-shares_example :
    IsValid (pmm_ref_inc 0x400000 used)
    × (pmm_ref 0x400000 (pmm_ref_inc 0x400000 used) ≡ pmm_ref 0x400000 used + 1)
    × ((g : ℕ) → IsFrame used g → 0x400000 ≢ g → refs (pmm_ref_inc 0x400000 used) g ≡ refs used g)
pmm_ref_inc-shares_example =
    pmm_ref_inc-shares 0x400000 used-IsValid (omega (arith, used_count)) (omega (arith, used_count))

used_list_empty : used.free_count ≡ 0
unfolding pmm_alloc pmm_init
used_list_empty = refl

-- The frames from `a` on.
frames : ℕ → ℕ → List ℕ
frames zero a = []
frames (suc n) a = a ∷ frames n (a + frame_size)

length-frames : (n a : ℕ) → length (frames n a) ≡ n
unfolding frames
length-frames zero a = refl
length-frames (suc n) a = ap suc (length-frames n (a + frame_size))

get_or-frames : (n a i : ℕ) → i < n → get_or (frames n a) i 0 ≡ a + i * frame_size
unfolding frames
get_or-frames zero a i h = absurd (omega arith)
get_or-frames (suc n) a zero h = omega arith
get_or-frames (suc n) a (suc i) h = omega (arith, get_or-frames n (a + frame_size) i (omega arith))

-- 1025 frames were handed out, and all but the last are back on the list.
crowded : Pmm
crowded = record {
  start_frame = 0x400000;
  next_frame = 0x801000;
  end_frame = 0x2000000;
  free_list = frames free_max 0x400000;
  free_count = free_max;
  oom_warned = false;
  refcount = set (replicate max_frames 0) free_max 1;
}

crowded-listed : (i : ℕ) → i < free_max → listed crowded i ≡ 0x400000 + i * frame_size
unfolding crowded
crowded-listed i h = get_or-frames free_max 0x400000 i h

crowded-refs : (f : ℕ) → IsFrame crowded f → f ≢ 0x800000 → refs crowded f ≡ 0
unfolding crowded
crowded-refs f hf ne =
    get_or-set_ne (replicate max_frames 0) free_max (frame_idx crowded f) 1 0 (omega (arith, hf))
    ∙ get_or-replicate max_frames (frame_idx crowded f) 0

crowded-listed-IsFrame : (i : ℕ) → i < free_max → IsFrame crowded (listed crowded i)
unfolding crowded
crowded-listed-IsFrame i h = omega (arith, crowded-listed i h)

crowded-IsValid : IsValid crowded
unfolding crowded
crowded-IsValid = record {
  bounds = omega (
    arith,
    length-frames free_max 0x400000,
    length-set {A = ℕ} (replicate max_frames 0) free_max 1,
    length-replicate {A = ℕ} max_frames 0,
  );
  free_IsFrame = crowded-listed-IsFrame;
  free_below = λ i h. omega (arith, crowded-listed i h);
  free_unowned = λ i h.
      crowded-refs (listed crowded i) (crowded-listed-IsFrame i h)
        (omega (arith, crowded-listed i h));
  distinct = λ i j p q. omega (arith, crowded-listed i (omega arith), crowded-listed j q);
  virgin = λ f hf p. crowded-refs f hf (omega arith);
}

crowded-IsFrame : IsFrame crowded 0x800000
unfolding crowded
crowded-IsFrame = record { from_start = omega arith; before_end = omega arith; aligned = refl }

crowded_owned : refs crowded 0x800000 ≡ 1
unfolding crowded
crowded_owned =
    get_or-set_self (replicate max_frames 0) free_max 1 0
      (omega (arith, length-replicate {A = ℕ} max_frames 0))

crowded_full : crowded.free_count ≡ free_max
unfolding crowded
crowded_full = refl

handed_out-ne_Lost_example :
    All (λ g. g ≢ 0x800000) (handed_out (free 5 ∷ alloc ∷ alloc ∷ []) (pmm_free 0x800000 crowded))
handed_out-ne_Lost_example =
    handed_out-ne_Lost (free 5 ∷ alloc ∷ alloc ∷ []) (pmm_free 0x800000 crowded) 0x800000
      (pmm_free-IsValid 0x800000 crowded-IsValid)
      (pmm_free-Lost 0x800000 crowded-IsValid crowded-IsFrame crowded_owned crowded_full).0
