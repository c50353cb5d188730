-- ===== src/Pmm.antt =====
-- The physical frame allocator of kernel/arch/pmm.c. The serial line that reports the first
-- exhaustion is output only; the flag that throttles it is kept.
pub mod Inv
pub mod Alloc
pub mod Free
pub mod Owners
pub mod Pool
mod Tests
use stink_os.Base.{
  ℕ, ◌+◌, ◌-◌, ◌*◌, ◌/◌, List, Bool, true, false, ◌&&◌, replicate, get_or, set, ltb, leb, ◌==◌,
  if◌then◌else◌, add32, sub32,
}

-- `FRAME_SIZE`, `FREE_MAX` and `MAX_FRAMES`
abbrev pub frame_size : ℕ
frame_size = 4096

abbrev pub free_max : ℕ
free_max = 1024

abbrev pub max_frames : ℕ
max_frames = 8192

-- The static variables.
pub record Pmm : Type 0 where
  pub start_frame : ℕ
  pub next_frame : ℕ
  pub end_frame : ℕ
  pub free_list : List ℕ
  pub free_count : ℕ
  pub oom_warned : Bool
  pub refcount : List ℕ

-- `x & ~(FRAME_SIZE - 1)`
abbrev pub frame_base : ℕ → ℕ
frame_base x = x / frame_size * frame_size

abbrev pub in_range : Pmm → ℕ → Bool
in_range s frame = leb s.start_frame frame && ltb frame s.end_frame

abbrev pub frame_idx : Pmm → ℕ → ℕ
frame_idx s frame = sub32 frame s.start_frame / frame_size

unfoldable pub pmm_init : ℕ → ℕ → List ℕ → Pmm
pmm_init start end old_list =
    let first = frame_base (add32 start (frame_size - 1)) in
    record {
      start_frame = first;
      next_frame = first;
      end_frame = frame_base end;
      free_list = old_list;
      free_count = 0;
      oom_warned = false;
      refcount = replicate max_frames 0;
    }

-- `refcount[frame_idx(frame)] = n`
abbrev pub put_ref : Pmm → ℕ → ℕ → Pmm
put_ref s frame n = record s { refcount = set s.refcount (frame_idx s frame) n }

-- The frame is 0 when memory is exhausted.
unfoldable pub pmm_alloc : Pmm → ℕ × Pmm
pmm_alloc s =
    if ltb 0 s.free_count
    then (let frame = get_or s.free_list (s.free_count - 1) 0 in
        (frame, put_ref (record s { free_count = s.free_count - 1 }) frame 1))
    else if leb (add32 s.next_frame frame_size) s.end_frame
    then (
      s.next_frame,
      put_ref (record s { next_frame = add32 s.next_frame frame_size }) s.next_frame 1,
    )
    else (0, record s { oom_warned = true })

pub pmm_total_pages : Pmm → ℕ
pmm_total_pages s = sub32 s.end_frame s.start_frame / frame_size

pub pmm_free_pages : Pmm → ℕ
pmm_free_pages s = add32 (sub32 s.end_frame s.next_frame / frame_size) s.free_count

-- `if (free_count < FREE_MAX) free_list[free_count++] = frame;`
abbrev pub release : ℕ → Pmm → Pmm
release frame s =
    if ltb s.free_count free_max
    then record s { free_list = set s.free_list s.free_count frame; free_count = s.free_count + 1 }
    else s

pub pmm_free : ℕ → Pmm → Pmm
pmm_free addr s =
    let frame = frame_base addr in
    if in_range s frame
    then (let count = get_or s.refcount (frame_idx s frame) 0 in
        if count == 0
        then s
        else if ltb 0 (count - 1)
        then put_ref s frame (count - 1)
        else release frame (put_ref s frame (count - 1)))
    else s

pub pmm_ref_inc : ℕ → Pmm → Pmm
pmm_ref_inc addr s =
    let frame = frame_base addr in
    if in_range s frame
    then (let count = get_or s.refcount (frame_idx s frame) 0 in
        if ltb count 255 then put_ref s frame (count + 1) else s)
    else s

pub pmm_ref : ℕ → Pmm → ℕ
pmm_ref addr s =
    let frame = frame_base addr in
    if in_range s frame then get_or s.refcount (frame_idx s frame) 0 else 0
