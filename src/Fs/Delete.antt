-- ===== src/Fs/Delete.antt =====
-- The volume after `stinkfs_file_delete` of kernel/fs/fs.c: the files behind the hole move down.
use stink_os.Base.{
  ℕ, zero, suc, ◌+◌, ◌-◌, ◌^◌, ◌≤◌, ◌<◌, ◌≡◌, ◌≢◌, ◌⊎◌, inl, inr, refl, sym, ap, ◌∙◌, subst, List,
  [], ◌∷◌, Option, none, some, Bool, true, false, length, get_or, set, ltb, if◌then◌else◌, sub32,
  arith, get_or-set_self, get_or-set_ne, length-set, ℕ_discrete, dec_lt,
}
use stink_os.Fs.{Ata, fs_max_files, File, Dir, Mount, no_file, file}
use stink_os.Fs.Stink.{
  need_sectors, stinkfs_find, shifted, shift_starts, close_gap, removed, delete_at,
  stinkfs_file_delete,
}
use stink_os.Fs.Extents.{IsValid, IsPlaced, IsApart}
use stink_os.Fs.Names.{find-bound}
use stink_os.Fs.Write.{saved_same}

length-shift_starts :
    (left hole freed : ℕ) (fs : List File) → length (shift_starts left hole freed fs) ≡ length fs
unfolding shift_starts
length-shift_starts zero hole freed fs = refl
length-shift_starts (suc left) hole freed [] = refl
length-shift_starts (suc left) hole freed (f ∷ fs) = ap suc (length-shift_starts left hole freed fs)

get_or-shift_starts :
    (left hole freed j : ℕ) (fs : List File)
    → j < left
    → j < length fs
    → get_or (shift_starts left hole freed fs) j no_file ≡ shifted hole freed (get_or fs j no_file)
unfolding shift_starts
get_or-shift_starts zero hole freed j fs lt in_list = absurd (omega arith)
get_or-shift_starts (suc left) hole freed j [] lt in_list = absurd (omega arith)
get_or-shift_starts (suc left) hole freed zero (f ∷ fs) lt in_list = refl
get_or-shift_starts (suc left) hole freed (suc j) (f ∷ fs) lt in_list =
    get_or-shift_starts left hole freed j fs (omega arith) (omega arith)

length-close_gap : (left i : ℕ) (fs : List File) → length (close_gap left i fs) ≡ length fs
unfolding close_gap
length-close_gap zero i fs = refl
length-close_gap (suc left) i fs = length-close_gap left (i + 1) _ ∙ length-set fs i _

get_or-close_gap_below :
    (left i j : ℕ) (fs : List File)
    → j < i
    → get_or (close_gap left i fs) j no_file ≡ get_or fs j no_file
unfolding close_gap
get_or-close_gap_below zero i j fs lt = refl
get_or-close_gap_below (suc left) i j fs lt =
    get_or-close_gap_below left (i + 1) j _ (omega arith)
    ∙ get_or-set_ne fs i j _ no_file (λ e. omega (arith, e))

get_or-close_gap :
    (left i j : ℕ) (fs : List File)
    → i ≤ j
    → j < i + left
    → i + left < length fs
    → get_or (close_gap left i fs) j no_file ≡ get_or fs (j + 1) no_file
unfolding close_gap
get_or-close_gap zero i j fs lo hi len = absurd (omega arith)
get_or-close_gap (suc left) i j fs lo hi len = elim (ℕ_discrete i j) [
  | yes e ↦
      subst
        (λ k.
          get_or (close_gap left (i + 1) (set fs i (get_or fs (i + 1) no_file))) k no_file
          ≡ get_or fs (k + 1) no_file)
        e
        (get_or-close_gap_below left (i + 1) i _ (omega arith)
          ∙ get_or-set_self fs i _ no_file (omega arith))
  | no ne ↦
      get_or-close_gap left (i + 1) j _ (omega arith) (omega arith)
        (omega (arith, length-set fs i (get_or fs (i + 1) no_file)))
      ∙ get_or-set_ne fs i (j + 1) _ no_file (λ e. omega (arith, e))
]

-- The place that entry `j` had before entry `i` was taken out.
abbrev pub old_place : ℕ → ℕ → ℕ
old_place i j = if ltb j i then j else j + 1

old_place_low : (i j : ℕ) → j < i → old_place i j ≡ j
old_place_low i j lt = ground arith

old_place_high : (i j : ℕ) → i ≤ j → old_place i j ≡ j + 1
old_place_high i j le = ground arith

pub old_in : {count : ℕ} (i j : ℕ) → i < count → j < count - 1 → old_place i j < count
old_in i j lt hj = ground arith

pub old_ne : (i j : ℕ) → i ≢ old_place i j
old_ne i j e = ground (arith, e)

pub file-removed :
    (i j : ℕ) (d : Dir)
    → i < d.count
    → j < d.count - 1
    → d.count ≤ fs_max_files
    → length d.files ≡ fs_max_files
    → file (removed i d) j
      ≡ shifted (file d i).start (need_sectors (file d i).size) (file d (old_place i j))
unfolding removed
file-removed i j d in_count lt counted len = elim (dec_lt j i) [
  | yes below ↦ rw (old_place_low i j below) (
      get_or-close_gap_below (d.count - 1 - i) i j moved below
      ∙ get_or-shift_starts d.count _ _ j d.files (omega arith) (omega arith))
  | no above ↦ rw (old_place_high i j (omega arith)) (
      get_or-close_gap (d.count - 1 - i) i j moved (omega arith) (omega arith)
        (omega (arith, length-shift_starts d.count hole freed d.files))
      ∙ get_or-shift_starts d.count _ _ (j + 1) d.files (omega arith) (omega arith))
]
  where
    freed : ℕ
    freed = need_sectors (file d i).size

    hole : ℕ
    hole = (file d i).start

    moved : List File
    moved = shift_starts d.count hole freed d.files

module _ (lo hi : ℕ) (h : File) (p : IsPlaced lo hi h) (le : lo ≤ hi)
    (bound : hi + 2 ^ 24 < 2 ^ 32) where
  abbrev pub taken : ℕ
  taken = need_sectors h.size

  -- Where a file stands that is apart from the one taken out.
  pub data Side (f : File) : ℕ → Type 0 where
    above : h.start + taken ≤ f.start → Side f (f.start - taken)
    below : 0 < taken → f.start + need_sectors f.size ≤ h.start → Side f f.start
    still : taken ≡ 0 → Side f f.start

  pub shifted-Side :
      (f : File)
      → 0 < need_sectors f.size
      → IsApart h f
      → IsPlaced lo hi f
      → Side f (shifted h.start taken f).start
  shifted-Side f some_left a q = elim (dec_lt 0 taken) [
    | yes more ↦ elim (a more some_left) [
      | inl x ↦ subst (Side f) (sym (down x more)) (above x)
      | inr x ↦ subst (Side f) (sym (same x)) (below more x)
    ]
    | no none_taken ↦ subst (Side f) (sym (unmoved (omega arith))) (still (omega arith))
  ]
    where
      down :
          h.start + taken ≤ f.start → 0 < taken → (shifted h.start taken f).start ≡ f.start - taken
      down x more = ground (arith, q.to_high some_left)

      same : f.start + need_sectors f.size ≤ h.start → (shifted h.start taken f).start ≡ f.start
      same x = ground arith

      unmoved : taken ≡ 0 → (shifted h.start taken f).start ≡ f.start
      unmoved z = ground (arith, q.to_high some_left)

  Side-bounds :
      (f : File) (n : ℕ)
      → 0 < need_sectors f.size
      → IsPlaced lo hi f
      → Side f n
      → (lo ≤ n) × (n + need_sectors f.size ≤ sub32 hi taken)
  Side-bounds f n some_left q (above x) =
      ground (arith, q.to_high some_left, q.from_low some_left, place_of_hole)
    where
      place_of_hole : 0 < taken → lo ≤ h.start
      place_of_hole more = p.from_low more
  Side-bounds f n some_left q (below more x) = ground (arith, q.from_low some_left, p.to_high more)
  Side-bounds f n some_left q (still z) = ground (arith, q.from_low some_left, q.to_high some_left)

  Side-apart :
      (f g : File) (n k : ℕ)
      → 0 < need_sectors f.size
      → 0 < need_sectors g.size
      → IsApart f g
      → Side f n
      → Side g k
      → (n + need_sectors f.size ≤ k) ⊎ (k + need_sectors g.size ≤ n)
  Side-apart f g n k nf ng a (above x) (above y) = elim (a nf ng) [
    | inl u ↦ inl (omega arith)
    | inr u ↦ inr (omega arith)
  ]
  Side-apart f g n k nf ng a (above x) (below m y) = inr (omega arith)
  Side-apart f g n k nf ng a (above x) (still z) = elim (a nf ng) [
    | inl u ↦ inl (omega arith)
    | inr u ↦ inr (omega arith)
  ]
  Side-apart f g n k nf ng a (below m x) (above y) = inl (omega arith)
  Side-apart f g n k nf ng a (below m x) (below m' y) = a nf ng
  Side-apart f g n k nf ng a (below m x) (still z) = a nf ng
  Side-apart f g n k nf ng a (still z) (above y) = elim (a nf ng) [
    | inl u ↦ inl (omega arith)
    | inr u ↦ inr (omega arith)
  ]
  Side-apart f g n k nf ng a (still z) (below m y) = a nf ng
  Side-apart f g n k nf ng a (still z) (still z') = a nf ng

  shifted-IsPlaced :
      (f : File)
      → IsApart h f
      → IsPlaced lo hi f
      → IsPlaced lo (sub32 hi taken) (shifted h.start taken f)
  shifted-IsPlaced f a q = record {
    word = ground (arith, q.word);
    from_low = λ m. (Side-bounds f _ m q (shifted-Side f m a q)).0;
    to_high = λ m. (Side-bounds f _ m q (shifted-Side f m a q)).1;
  }

  shifted-IsApart :
      (f g : File)
      → IsApart h f
      → IsApart h g
      → IsPlaced lo hi f
      → IsPlaced lo hi g
      → IsApart f g
      → IsApart (shifted h.start taken f) (shifted h.start taken g)
  shifted-IsApart f g af ag pf pg a nf ng =
      Side-apart f g _ _ nf ng a (shifted-Side f nf af pf) (shifted-Side g ng ag pg)

  freed_bounds : (lo ≤ sub32 hi taken) × (sub32 hi taken ≤ hi)
  freed_bounds = elim (dec_lt 0 taken) [
    | yes more ↦ ground (arith, p.from_low more, p.to_high more)
    | no none_taken ↦ ground arith
  ]

removed-fields :
    (i : ℕ) (d : Dir)
    → (length (removed i d).files ≡ length d.files)
      × ((removed i d).count ≡ d.count - 1)
      × ((removed i d).next_free ≡ sub32 d.next_free (need_sectors (file d i).size))
unfolding removed
removed-fields i d = (length-close_gap _ i _ ∙ length-shift_starts d.count _ _ d.files, refl, refl)

pub removed-IsValid :
    {m : Mount} (i : ℕ) → IsValid m → i < m.dir.count → IsValid (record m { dir = removed i m.dir })
unfolding removed
removed-IsValid {m} i v lt = record {
  low = (freed_bounds m.data_lba m.dir.next_free h placed v.low small).0;
  high = omega (arith, (freed_bounds m.data_lba m.dir.next_free h placed v.low small).1, v.high);
  no_wrap = v.no_wrap;
  slots = (removed-fields i m.dir).0 ∙ v.slots;
  counted = omega (arith, v.counted);
  placed = λ j hj.
      subst (IsPlaced m.data_lba (sub32 m.dir.next_free (need_sectors h.size))) (sym (entry j hj)) (
        shifted-IsPlaced m.data_lba m.dir.next_free h placed v.low small
          (file m.dir (old_place i j)) (v.apart i _ lt (old_in i j lt hj) (old_ne i j))
          (v.placed _ (old_in i j lt hj)));
  apart = λ j k hj hk ne.
      subst (λ f. IsApart f (file (removed i m.dir) k)) (sym (entry j hj))
        (subst (IsApart (shifted h.start (need_sectors h.size) (file m.dir (old_place i j))))
          (sym (entry k hk))
          (shifted-IsApart m.data_lba m.dir.next_free h placed v.low small
            (file m.dir (old_place i j)) (file m.dir (old_place i k))
            (v.apart i _ lt (old_in i j lt hj) (old_ne i j))
            (v.apart i _ lt (old_in i k lt hk) (old_ne i k)) (v.placed _ (old_in i j lt hj))
            (v.placed _ (old_in i k lt hk))
            (v.apart _ _ (old_in i j lt hj) (old_in i k lt hk) (λ e. ne (old_same j k e)))));
}
  where
    h : File
    h = file m.dir i

    placed : IsPlaced m.data_lba m.dir.next_free h
    placed = v.placed i lt

    small : m.dir.next_free + 2 ^ 24 < 2 ^ 32
    small = omega (arith, v.no_wrap, v.high)

    entry :
        (j : ℕ)
        → j < m.dir.count - 1
        → file (removed i m.dir) j
          ≡ shifted h.start (need_sectors h.size) (file m.dir (old_place i j))
    entry j hj = file-removed i j m.dir lt hj v.counted v.slots

    old_same : (j k : ℕ) → old_place i j ≡ old_place i k → j ≡ k
    old_same j k e = ground (arith, e)

delete_at-IsValid :
    (o : Option ℕ) (a : Ata) {m : Mount}
    → IsValid m
    → ((i : ℕ) → o ≡ some i → i < m.dir.count)
    → IsValid (delete_at o m a).1
unfolding delete_at
delete_at-IsValid none a v lt = v
delete_at-IsValid (some i) a {m} v lt = subst IsValid (sym (saved_same _ _ _)) (either _)
  where
    either : (ok : Bool) → IsValid (if ok then record m { dir = removed i m.dir } else m)
    either true = removed-IsValid i v (lt i refl)
    either false = v

-- Deleting a file keeps the volume valid, whichever commands of the drive fail: after the files
-- behind the hole have moved down, all extents still lie in the data region below `next_free` and no
-- two files share a sector.
pub stinkfs_file_delete-IsValid :
    (name : List ℕ) (a : Ata) {m : Mount} → IsValid m → IsValid (stinkfs_file_delete name m a).1
unfolding stinkfs_file_delete
stinkfs_file_delete-IsValid name a {m} v =
    delete_at-IsValid (stinkfs_find m.dir name) a v (λ i e. find-bound m.dir name i e)
