-- ===== src/Fs/Kept.antt =====
-- What a delete does to the bytes of the other files.
use stink_os.Base.{
  ℕ, ◌+◌, ◌-◌, ◌^◌, ◌≤◌, ◌<◌, ◌≡◌, inl, refl, sym, ap, ◌∙◌, subst, List, [], ◌∷◌, Option, none,
  some, Bool, true, false, ◌&&◌, ltb, leb, ◌==◌, if◌then◌else◌, add32, arith, dec_lt,
}
use stink_os.Fs.{Ata, File, Mount, file, drive_write, fs_dir_sectors, outcome}
use stink_os.Fs.Stink.{
  need_sectors, shifted, copy_sectors, removed, save_if, stinkfs_dir_save, delete_at,
  stinkfs_file_delete, stinkfs_find,
}
use stink_os.Fs.Extents.{IsValid, IsPlaced, need_sectors-bound}
use stink_os.Fs.Names.{find-bound}
use stink_os.Fs.Delete.{
  old_place, old_in, old_ne, removed-IsValid, file-removed, Side, above, below, still, shifted-Side,
}
use stink_os.Fs.Move.{IsSectors, Copied, copy_sectors-Copied}

-- Sectors behind the directory are not touched when it is saved.
pub dir_save_keeps :
    (m : Mount) (a : Ata) (l : ℕ)
    → m.dir_lba + fs_dir_sectors ≤ l
    → (stinkfs_dir_save m a).2.disk m.drive l ≡ a.disk m.drive l
unfolding stinkfs_dir_save drive_write
dir_save_keeps m a l le = rw (miss (outcome_at_most a.faults)) refl
  where
    outcome_at_most :
        (faults : List (Option ℕ)) → (outcome fs_dir_sectors faults).0 ≤ fs_dir_sectors
    outcome_at_most [] = omega arith
    outcome_at_most (none ∷ fs) = omega arith
    outcome_at_most (some k ∷ fs) = omega arith

    miss :
        {n : ℕ}
        → n ≤ fs_dir_sectors
        → (m.drive == m.drive && (leb m.dir_lba l && ltb l (m.dir_lba + n))) ≡ false
    miss h = ground arith

saved_then :
    (m m1 : Mount) (c : Bool × Ata)
    → (save_if c.0 (if c.0 then m1 else m) c.1).0 ≡ true
    → (c.0 ≡ true) × (save_if c.0 (if c.0 then m1 else m) c.1 ≡ stinkfs_dir_save m1 c.1)
unfolding save_if
saved_then m m1 (true, a) ok = (refl, refl)
saved_then m m1 (false, a) ok = cc ok

-- The sectors of a file that is apart from the one taken out, after the move.
Side-kept :
    (lo next : ℕ) (h : File) (p : IsPlaced lo next h) (le : lo ≤ next)
    (small : next + 2 ^ 24 < 2 ^ 32) (drive : ℕ) {a a' : Ata} (f : File) (n k : ℕ)
    → Copied
        (next - (h.start + need_sectors h.size))
        drive
        (h.start + need_sectors h.size)
        h.start
        a
        a'
    → f.start + need_sectors f.size ≤ next
    → k < need_sectors f.size
    → Side lo next h p le small f n
    → a'.disk drive (n + k) ≡ a.disk drive (f.start + k)
Side-kept lo next h p le small drive {a} {a'} f n k c end in_file (above x) =
    ap (a'.disk drive) there ∙ c.moved at (omega arith) ∙ ap (a.disk drive) here
  where
    at : ℕ
    at = f.start - (h.start + need_sectors h.size) + k

    there : f.start - need_sectors h.size + k ≡ h.start + at
    there = omega arith

    here : h.start + need_sectors h.size + at ≡ f.start + k
    here = omega arith
Side-kept lo next h p le small drive f n k c end in_file (below more x) =
    c.others _ (inl (omega arith))
Side-kept lo next h p le small drive {a} {a'} f n k c end in_file (still z) =
    elim (dec_lt (f.start + k) h.start) [
      | yes low ↦ c.others _ (inl low)
      | no high ↦
          let at : ℕ = f.start + k - h.start in
          let there : f.start + k ≡ h.start + at = omega arith in
          let here : h.start + need_sectors h.size + at ≡ f.start + k = omega arith in
          ap (a'.disk drive) there ∙ c.moved at (omega arith) ∙ ap (a.disk drive) here
    ]

-- What a delete of entry `i` leaves: every other file has its name, its size and its bytes, at its
-- new place.
pub record Kept (i : ℕ) (m : Mount) (a : Ata) (out : Bool × Mount × Ata) : Type 0 where
  pub count : out.1.dir.count ≡ m.dir.count - 1
  pub names :
      (j : ℕ) → j < out.1.dir.count → (file out.1.dir j).name ≡ (file m.dir (old_place i j)).name
  pub sizes :
      (j : ℕ) → j < out.1.dir.count → (file out.1.dir j).size ≡ (file m.dir (old_place i j)).size
  pub sectors :
      (j k : ℕ)
      → j < out.1.dir.count
      → k < need_sectors (file out.1.dir j).size
      → out.2.disk m.drive ((file out.1.dir j).start + k)
        ≡ a.disk m.drive ((file m.dir (old_place i j)).start + k)

Kept-after :
    {m : Mount} {a a' : Ata} (i : ℕ)
    → IsValid m
    → i < m.dir.count
    → m.dir_lba + fs_dir_sectors ≤ m.data_lba
    → Copied
        (m.dir.next_free - ((file m.dir i).start + need_sectors (file m.dir i).size))
        m.drive
        ((file m.dir i).start + need_sectors (file m.dir i).size)
        (file m.dir i).start
        a
        a'
    → Kept i m a (stinkfs_dir_save (record m { dir = removed i m.dir }) a')
unfolding removed stinkfs_dir_save
Kept-after {m} {a} {a'} i v lt apart c = record {
  count = refl;
  names = λ j h. ap (λ (f : File). f.name) (entry j h);
  sizes = λ j h. ap (λ (f : File). f.size) (entry j h);
  sectors = λ j k h q.
      dir_save_keeps (record m { dir = removed i m.dir }) a' _
        (omega (arith, behind j h (omega arith)))
      ∙ subst
          (λ (g : File).
            k < need_sectors g.size
            → a'.disk m.drive (g.start + k)
              ≡ a.disk m.drive ((file m.dir (old_place i j)).start + k))
          (sym (entry j h)) (from_side j k h) q;
}
  where
    entry :
        (j : ℕ)
        → j < m.dir.count - 1
        → file (removed i m.dir) j
          ≡ shifted
              (file m.dir i).start
              (need_sectors (file m.dir i).size)
              (file m.dir (old_place i j))
    entry j hj = file-removed i j m.dir lt hj v.counted v.slots

    small : m.dir.next_free + 2 ^ 24 < 2 ^ 32
    small = omega (arith, v.no_wrap, v.high)

    behind :
        (j : ℕ)
        → j < m.dir.count - 1
        → 0 < need_sectors (file (removed i m.dir) j).size
        → m.data_lba ≤ (file (removed i m.dir) j).start
    behind j h = ((removed-IsValid i v lt).placed j h).from_low

    from_side :
        (j k : ℕ)
        → j < m.dir.count - 1
        → k < need_sectors (file m.dir (old_place i j)).size
        → a'.disk m.drive (
            (shifted
              (file m.dir i).start
              (need_sectors (file m.dir i).size)
              (file m.dir (old_place i j))).start
            + k)
          ≡ a.disk m.drive ((file m.dir (old_place i j)).start + k)
    from_side j k h q =
        let placed : IsPlaced m.data_lba m.dir.next_free (file m.dir (old_place i j)) =
          v.placed _ (old_in i j lt h) in
        Side-kept m.data_lba m.dir.next_free (file m.dir i) (v.placed i lt) v.low small m.drive
          (file m.dir (old_place i j)) _ k c (placed.to_high (omega arith)) q
          (shifted-Side m.data_lba m.dir.next_free (file m.dir i) (v.placed i lt) v.low small
            (file m.dir (old_place i j)) (omega arith)
            (v.apart i _ lt (old_in i j lt h) (old_ne i j)) placed)

delete_at-Kept :
    (i : ℕ) {m : Mount} {a : Ata}
    → IsValid m
    → IsSectors m.drive a
    → m.dir_lba + fs_dir_sectors ≤ m.data_lba
    → i < m.dir.count
    → (delete_at (some i) m a).0 ≡ true
    → Kept i m a (delete_at (some i) m a)
unfolding delete_at
delete_at-Kept i {m} {a} v sectors apart lt ok =
    subst (Kept i m a) (sym then_saved.1) (Kept-after i v lt apart copied)
  where
    h : File
    h = file m.dir i

    c : Bool × Ata
    c =
        copy_sectors (m.dir.next_free - add32 h.start (need_sectors h.size)) m.drive
          (add32 h.start (need_sectors h.size)) h.start a

    then_saved :
        (c.0 ≡ true)
        × (save_if c.0 (if c.0 then record m { dir = removed i m.dir } else m) c.1
            ≡ stinkfs_dir_save (record m { dir = removed i m.dir }) c.1)
    then_saved = saved_then m (record m { dir = removed i m.dir }) c ok

    exact : add32 h.start (need_sectors h.size) ≡ h.start + need_sectors h.size
    exact = elim (dec_lt 0 (need_sectors h.size)) [
      | yes more ↦ omega (arith, (v.placed i lt).to_high more, v.high, v.no_wrap)
      | no empty ↦ omega (arith, (v.placed i lt).word)
    ]

    copied :
        Copied
          (m.dir.next_free - (h.start + need_sectors h.size))
          m.drive
          (h.start + need_sectors h.size)
          h.start
          a
          c.1
    copied =
        subst (λ n. Copied (m.dir.next_free - n) m.drive n h.start a c.1) exact
          (copy_sectors-Copied _ m.drive _ h.start a (omega (arith, exact))
            (omega
              (arith, exact, v.high, v.no_wrap, (v.placed i lt).word, need_sectors-bound h.size))
            sectors then_saved.0).0

-- A delete that succeeds loses no byte of another file. In a valid volume whose directory lies before
-- its data, if entry `i` is found for the name and the call returns 0, there is one file less, and
-- every other file has its name, its size and, sector by sector, the bytes it had, although the files
-- behind the hole have moved and the ranges of the move overlap.
pub stinkfs_file_delete-Kept :
    (name : List ℕ) (i : ℕ) {m : Mount} {a : Ata}
    → IsValid m
    → IsSectors m.drive a
    → m.dir_lba + fs_dir_sectors ≤ m.data_lba
    → stinkfs_find m.dir name ≡ some i
    → (stinkfs_file_delete name m a).0 ≡ true
    → Kept i m a (stinkfs_file_delete name m a)
unfolding stinkfs_file_delete
stinkfs_file_delete-Kept name i {m} {a} v sectors apart found ok =
    subst (λ o. Kept i m a (delete_at o m a)) (sym found)
      (delete_at-Kept i v sectors apart (find-bound m.dir name i found)
        (ap (λ o. (delete_at o m a).0) (sym found) ∙ ok))
