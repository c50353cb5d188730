-- ===== src/Fs/Write.antt =====
-- The volume after `stinkfs_file_write` of kernel/fs/fs.c.
use stink_os.Base.{
  ℕ, zero, suc, ◌+◌, ◌^◌, ◌≤◌, ◌<◌, ◌≡◌, ◌≢◌, ◌⊎◌, inl, inr, refl, sym, ap, ◌∙◌, subst, List, [],
  ◌∷◌, Option, none, some, Bool, true, false, length, get_or, set, ltb, leb, if◌then◌else◌, add32,
  arith, Bool-cases, get_or-set_self,
}
use stink_os.Fs.{Ata, fs_max_files, File, Dir, Mount, no_file, file, put_file}
use stink_os.Fs.Stink.{
  need_sectors, place, write_placed, save_if, stinkfs_dir_save, stinkfs_file_write, stinkfs_find,
  place_again, new_entry,
}
use stink_os.Fs.Extents.{
  IsValid, with_file-IsValid, behind-IsApart, narrower-IsApart, narrower-IsPlaced,
  need_sectors-bound, IsPlaced-up,
}
use stink_os.Fs.Names.{find-bound}

set-set : (fs : List File) (i : ℕ) (f g : File) → set (set fs i f) i g ≡ set fs i g
set-set [] i f g = refl
set-set (x ∷ xs) zero f g = refl
set-set (x ∷ xs) (suc i) f g = ap (λ ys. x ∷ ys) (set-set xs i f g)

-- Setting an entry and then its size is setting the entry with that size.
pub set-resized :
    (fs : List File) (i : ℕ) (f : File) (size : ℕ)
    → i < length fs
    → set (set fs i f) i (record (get_or (set fs i f) i no_file) { size = size })
      ≡ set fs i (record f { size = size })
set-resized fs i f size lt =
    set-set fs i f _
    ∙ ap (λ (h : File). set fs i (record h { size = size })) (get_or-set_self fs i f no_file lt)

-- The entry and extent that are chosen for a file of `need` sectors.
pub data PlaceCase (o : Option ℕ) (need data_end : ℕ) (d : Dir) : Option ℕ × Dir → Type 0 where
  refused : PlaceCase o need data_end d (none, d)
  full :
      fs_max_files ≤ d.count
      → add32 d.next_free need ≤ data_end
      → PlaceCase o need data_end d (none, record d { next_free = add32 d.next_free need })
  kept :
      (i : ℕ)
      → o ≡ some i
      → need ≤ need_sectors (file d i).size
      → PlaceCase o need data_end d (some i, d)
  placed :
      (i count : ℕ) (f : File)
      → i < count
      → (d.count ≤ fs_max_files → count ≤ fs_max_files)
      → ((j : ℕ) → j < count → i ≢ j → j < d.count)
      → f.start ≡ d.next_free
      → add32 d.next_free need ≤ data_end
      → PlaceCase o need data_end d
          (some i, put_file i f (record d { next_free = add32 d.next_free need; count = count }))

place_new-PlaceCase :
    (need data_end : ℕ) (name : List ℕ) (d : Dir) (b : Bool)
    → leb fs_max_files d.count ≡ b
    → add32 d.next_free need ≤ data_end
    → PlaceCase none need data_end d (
        if b
        then (none, record d { next_free = add32 d.next_free need })
        else new_entry need name d)
place_new-PlaceCase need data_end name d true e fits = full (ground arith) fits
place_new-PlaceCase need data_end name d false e fits =
    placed d.count (d.count + 1) _ (omega arith) (λ h. ground arith)
      (λ j h ne. omega (arith, ne_flip d.count j ne)) refl fits
  where
    ne_flip : (a b : ℕ) → a ≢ b → (a < b) ⊎ (b < a)
    ne_flip a b ne = omega arith

place_again-PlaceCase :
    (i need data_end : ℕ) (d : Dir)
    → i < d.count
    → add32 d.next_free need ≤ data_end
    → PlaceCase (some i) need data_end d (place_again i need d)
place_again-PlaceCase i need data_end d lt fits =
    placed i d.count _ lt (λ h. h) (λ j h ne. h) refl fits

pub place-PlaceCase :
    (o : Option ℕ) (need data_end : ℕ) (name : List ℕ) (d : Dir)
    → ((i : ℕ) → o ≡ some i → i < d.count)
    → PlaceCase o need data_end d (place o need data_end name d)
unfolding place
place-PlaceCase none need data_end name d lt =
    elim (Bool-cases (ltb data_end (add32 d.next_free need))) [
      | inl no_room ↦ rw no_room refused
      | inr room ↦ rw room (place_new-PlaceCase need data_end name d _ refl (ground arith))
    ]
place-PlaceCase (some i) need data_end name d lt =
    elim (Bool-cases (leb need (need_sectors (file d i).size))) [
      | inl small ↦ rw small (kept i refl (ground arith))
      | inr large ↦ elim (Bool-cases (ltb data_end (add32 d.next_free need))) [
        | inl no_room ↦ rw (large, no_room) refused
        | inr room ↦
            rw (large, room) (place_again-PlaceCase i need data_end d (lt i refl) (ground arith))
      ]
    ]

-- What is left of the volume when the size is set in the entry that was chosen.
abbrev sized : Option ℕ → ℕ → Mount → Mount
sized none size m = m
sized (some i) size m = record m { dir = put_file i (record (file m.dir i) { size = size }) m.dir }

-- Moving the end of the used sectors up, within the data region, keeps a volume valid.
pub raised :
    {m : Mount} (next : ℕ)
    → IsValid m
    → m.dir.next_free ≤ next
    → next ≤ m.data_end
    → IsValid (record m { dir = record m.dir { next_free = next } })
raised {m} next v up top = record {
  low = omega (arith, v.low);
  high = top;
  no_wrap = v.no_wrap;
  slots = v.slots;
  counted = v.counted;
  placed = λ i h. IsPlaced-up up (v.placed i h);
  apart = v.apart;
}

pub grown_by :
    (next size data_end : ℕ)
    → next ≤ data_end
    → data_end + 2 ^ 24 < 2 ^ 32
    → add32 next (need_sectors size) ≡ next + need_sectors size
grown_by next size data_end le lt = omega (arith, need_sectors-bound size)

sized-IsValid :
    (size : ℕ) {m : Mount} {o : Option ℕ} {r : Option ℕ × Dir}
    → IsValid m
    → ((i : ℕ) → o ≡ some i → i < m.dir.count)
    → PlaceCase o (need_sectors size) m.data_end m.dir r
    → IsValid (sized r.0 size (record m { dir = r.1 }))
sized-IsValid size {m} v lt refused = v
sized-IsValid size {m} v lt (full all fits) =
    raised _ v (omega (arith, grown_by m.dir.next_free size m.data_end v.high v.no_wrap)) fits
sized-IsValid size {m} v lt (kept i e small) =
    with_file-IsValid i _ m.dir.next_free m.dir.count v (omega arith) v.high (lt i e) v.counted
      (λ j h ne. h) (narrower-IsPlaced (file m.dir i) _ refl small (v.placed i (lt i e)))
      (λ j h ne.
        narrower-IsApart (file m.dir i) (record (file m.dir i) { size = size }) (file m.dir j) refl
          small (v.apart i j (lt i e) h ne))
sized-IsValid size {m} v lt (placed i count f in_count counted others start fits) =
    subst
      (λ fs.
        IsValid (record m { dir = record m.dir { files = fs; next_free = next; count = count } }))
      (sym files)
      (with_file-IsValid i g next count v (omega (arith, exact)) fits in_count (counted v.counted)
        others
        (record {
          word = omega (arith, start, v.high, v.no_wrap);
          from_low = λ q. omega (arith, start, v.low);
          to_high = λ q. omega (arith, start, exact);
        })
        (λ j h ne. behind-IsApart g (file m.dir j) (omega (arith, start)) (v.placed j h)))
  where
    next : ℕ
    next = add32 m.dir.next_free (need_sectors size)

    g : File
    g = record f { size = size }

    exact : next ≡ m.dir.next_free + need_sectors size
    exact = grown_by m.dir.next_free size m.data_end v.high v.no_wrap

    files :
        set
          (set m.dir.files i f)
          i
          (record (get_or (set m.dir.files i f) i no_file) { size = size })
        ≡ set m.dir.files i g
    files = set-resized m.dir.files i f size (omega (arith, v.slots, counted v.counted))

pub saved_same : (ok : Bool) (m : Mount) (a : Ata) → (save_if ok m a).1 ≡ m
unfolding save_if stinkfs_dir_save
saved_same true m a = refl
saved_same false m a = refl

write_placed-sized :
    (r : Option ℕ) (bytes : List ℕ) (m : Mount) (a : Ata)
    → (write_placed r bytes m a).1 ≡ sized r (length bytes) m
unfolding write_placed
write_placed-sized none bytes m a = refl
write_placed-sized (some i) bytes m a = saved_same _ _ _

-- Writing a file keeps the volume valid, whatever the name and the bytes, whether there is room or
-- not, and whichever commands of the drive fail: all extents stay inside the data region, below
-- `next_free`, and no two files share a sector.
pub stinkfs_file_write-IsValid :
    (name bytes : List ℕ) (a : Ata) {m : Mount}
    → IsValid m
    → IsValid (stinkfs_file_write name bytes m a).1
unfolding stinkfs_file_write
stinkfs_file_write-IsValid name bytes a {m} v =
    subst IsValid (sym (write_placed-sized _ bytes _ a)) (
      sized-IsValid (length bytes) v (λ i e. find-bound m.dir name i e)
        (place-PlaceCase (stinkfs_find m.dir name) _ m.data_end name m.dir
          (λ i e. find-bound m.dir name i e)))
