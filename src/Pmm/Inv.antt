-- ===== src/Pmm/Inv.antt =====
-- The invariant of the frame allocator's tables.
use stink_os.Base.{
  ℕ, ◌+◌, ◌*◌, ◌%◌, ◌^◌, ◌≤◌, ◌<◌, ◌≡◌, ◌≢◌, List, length, get_or, arith, length-set,
  length-replicate, get_or-replicate, get_or-set_self, get_or-set_ne,
}
use stink_os.Pmm.{Pmm, frame_size, free_max, max_frames, frame_idx, put_ref, pmm_init}

-- The owners of a frame.
abbrev pub refs : Pmm → ℕ → ℕ
refs s frame = get_or s.refcount (frame_idx s frame) 0

-- A page-aligned address in the managed range.
pub record IsFrame (s : Pmm) (frame : ℕ) : Type 0 where
  pub from_start : s.start_frame ≤ frame
  pub before_end : frame < s.end_frame
  pub aligned : frame % frame_size ≡ 0

-- The bounds of the managed range and of the tables. The last frames of the address space are
-- kept out, so that the watermark never wraps, and address 0, which means "none".
pub record IsBounded (s : Pmm) : Type 0 where
  pub nonzero : 0 < s.start_frame
  pub start_aligned : s.start_frame % frame_size ≡ 0
  pub next_aligned : s.next_frame % frame_size ≡ 0
  pub end_aligned : s.end_frame % frame_size ≡ 0
  pub next_low : s.start_frame ≤ s.next_frame
  pub next_high : s.next_frame ≤ s.end_frame
  pub covered : s.end_frame ≤ s.start_frame + max_frames * frame_size
  pub no_wrap : s.end_frame + frame_size < 2 ^ 32
  pub counters : length s.refcount ≡ max_frames
  pub slots : length s.free_list ≡ free_max
  pub room : s.free_count ≤ free_max

abbrev pub listed : Pmm → ℕ → ℕ
listed s i = get_or s.free_list i 0

pub record IsValid (s : Pmm) : Type 0 where
  pub bounds : IsBounded s
  pub free_IsFrame : (i : ℕ) → i < s.free_count → IsFrame s (listed s i)
  pub free_below : (i : ℕ) → i < s.free_count → listed s i < s.next_frame
  pub free_unowned : (i : ℕ) → i < s.free_count → refs s (listed s i) ≡ 0
  pub distinct : (i j : ℕ) → i < j → j < s.free_count → listed s i ≢ listed s j
  pub virgin : (f : ℕ) → IsFrame s f → s.next_frame ≤ f → refs s f ≡ 0

-- Two frames have their own counters, inside the table.
pub frame_idx-ne :
    {s : Pmm} (f g : ℕ)
    → IsBounded s
    → IsFrame s f
    → IsFrame s g
    → f ≢ g
    → frame_idx s f ≢ frame_idx s g
frame_idx-ne f g b hf hg ne e = omega arith

pub frame_idx-lt : {s : Pmm} (f : ℕ) → IsBounded s → IsFrame s f → frame_idx s f < length s.refcount
frame_idx-lt f b hf = omega arith

pub refs-put_self : {s : Pmm} (f n : ℕ) → IsBounded s → IsFrame s f → refs (put_ref s f n) f ≡ n
refs-put_self {s} f n b hf = get_or-set_self s.refcount (frame_idx s f) n 0 (frame_idx-lt f b hf)

pub refs-put_ne :
    {s : Pmm} (f g n : ℕ)
    → IsBounded s
    → IsFrame s f
    → IsFrame s g
    → f ≢ g
    → refs (put_ref s f n) g ≡ refs s g
refs-put_ne {s} f g n b hf hg ne =
    get_or-set_ne s.refcount (frame_idx s f) (frame_idx s g) n 0 (frame_idx-ne f g b hf hg ne)

pub put_ref-IsBounded : {s : Pmm} (f n : ℕ) → IsBounded s → IsBounded (put_ref s f n)
put_ref-IsBounded {s} f n b = omega (arith, length-set s.refcount (frame_idx s f) n)

-- Initialisation on a range that is not empty, lies below the top of the address space and has at
-- most `max_frames` frames gives a valid allocator.
pub pmm_init-IsValid :
    (start end : ℕ) (old : List ℕ)
    → 0 < start
    → start + frame_size ≤ end
    → end + frame_size < 2 ^ 32
    → end ≤ start + max_frames * frame_size
    → length old ≡ free_max
    → IsValid (pmm_init start end old)
unfolding pmm_init
pmm_init-IsValid start end old pos lo hi cover size = record {
  bounds = omega (arith, length-replicate {A = ℕ} max_frames 0);
  free_IsFrame = λ i h. absurd (omega arith);
  free_below = λ i h. absurd (omega arith);
  free_unowned = λ i h. absurd (omega arith);
  distinct = λ i j p q. absurd (omega arith);
  virgin = λ f h p. get_or-replicate max_frames _ 0;
}
