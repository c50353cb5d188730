-- ===== src/Fs/Load.antt =====
-- `stinkfs_dir_load` on a drive that holds no directory, and commands on a drive that works.
use stink_os.Base.{
  ℕ, zero, suc, ◌+◌, ◌-◌, ◌^◌, ◌≤◌, ◌<◌, ◌≡◌, ◌≢◌, refl, sym, ap, subst, List, [], none, some, Bool,
  true, false, length, drop, ◌==◌, if◌then◌else◌, arith, add32,
}
use stink_os.Fs.{
  Ata, File, Mount, fs_max_files, fs_dir_sectors, stinkfs_magic, decode_dir, decode_files,
  drive_read, drive_write,
}
use stink_os.Fs.Stink.{
  stinkfs_dir_load, stinkfs_dir_save, stinkfs_find, find_from, save_if, copy_sectors, delete_at,
  stinkfs_file_delete, need_sectors,
}
use stink_os.Fs.Extents.{IsValid}
use stink_os.Fs.{file}

length-decode_files : (n : ℕ) (b : List ℕ) → length (decode_files n b) ≡ n
unfolding decode_files
length-decode_files zero b = refl
length-decode_files (suc n) b = ap suc (length-decode_files n (drop 24 b))

decoded_size : (b : List ℕ) → length (decode_dir b).files ≡ fs_max_files
unfolding decode_dir
decoded_size b = length-decode_files fs_max_files _

loaded :
    (m : Mount) (a : Ata) (bytes : List ℕ)
    → (drive_read m.drive m.dir_lba fs_dir_sectors a).0 ≡ some bytes
    → (decode_dir bytes).magic ≢ stinkfs_magic
    → stinkfs_dir_load m a ≡ (
      true,
      record m {
        dir = record (decode_dir bytes) {
          magic = stinkfs_magic;
          count = 0;
          next_free = m.data_lba;
        };
      },
      (drive_read m.drive m.dir_lba fs_dir_sectors a).1,
    )
unfolding stinkfs_dir_load
loaded m a bytes read other = rw (stinkfs_dir_load, read, differs) refl
  where
    differs : ((decode_dir bytes).magic == stinkfs_magic) ≡ false
    differs = ground arith

-- Loading the directory of a drive that has none: if the directory's sectors can be read and do not
-- start with the magic number, the volume is an empty one with all its data sectors free, and valid.
pub stinkfs_dir_load-IsValid :
    (m : Mount) (a : Ata) (bytes : List ℕ)
    → m.data_lba ≤ m.data_end
    → m.data_end + 2 ^ 24 < 2 ^ 32
    → (drive_read m.drive m.dir_lba fs_dir_sectors a).0 ≡ some bytes
    → (decode_dir bytes).magic ≢ stinkfs_magic
    → ((stinkfs_dir_load m a).0 ≡ true)
      × IsValid (stinkfs_dir_load m a).1
      × ((name : List ℕ) → stinkfs_find (stinkfs_dir_load m a).1.dir name ≡ none)
unfolding stinkfs_find find_from
stinkfs_dir_load-IsValid m a bytes le small read other = rw (loaded m a bytes read other) (
  refl,
  record {
    low = omega arith;
    high = le;
    no_wrap = small;
    slots = decoded_size bytes;
    counted = omega arith;
    placed = λ i h. absurd (omega arith);
    apart = λ i j h. absurd (omega arith);
  },
  λ name. refl,
)

-- A drive whose commands all succeed.
abbrev pub working : (ℕ → ℕ → List ℕ) → Ata
working disk = record { disk = disk; faults = [] }

pub save_works : (m : Mount) (a : Ata) → a.faults ≡ [] → (save_if true m a).0 ≡ true
unfolding save_if stinkfs_dir_save drive_write
save_works m a e = rw e refl

copy_works :
    (left drive from to : ℕ) (disk : ℕ → ℕ → List ℕ)
    → ((copy_sectors left drive from to (working disk)).0 ≡ true)
      × ((copy_sectors left drive from to (working disk)).1.faults ≡ [])
unfolding copy_sectors drive_read drive_write
copy_works zero drive from to disk = (refl, refl)
copy_works (suc left) drive from to disk = copy_works left drive (add32 from 1) (add32 to 1) _

delete_works :
    (i : ℕ) (m : Mount) (disk : ℕ → ℕ → List ℕ) → (delete_at (some i) m (working disk)).0 ≡ true
unfolding delete_at
delete_works i m disk = saves _ _ (
    copy_works (m.dir.next_free - add32 h.start (need_sectors h.size)) m.drive
      (add32 h.start (need_sectors h.size)) h.start disk)
  where
    h : File
    h = file m.dir i

    saves :
        (m1 : Mount) (c : Bool × Ata)
        → (c.0 ≡ true) × (c.1.faults ≡ [])
        → (save_if c.0 (if c.0 then m1 else m) c.1).0 ≡ true
    saves m1 (true, a) (ok, f) = save_works m1 a f
    saves m1 (false, a) (ok, f) = cc ok

-- On a drive whose commands all succeed, deleting a file that exists succeeds.
pub stinkfs_file_delete_works :
    (name : List ℕ) (i : ℕ) (m : Mount) (a : Ata)
    → a.faults ≡ []
    → stinkfs_find m.dir name ≡ some i
    → (stinkfs_file_delete name m a).0 ≡ true
unfolding stinkfs_file_delete
stinkfs_file_delete_works name i m a works found =
    subst (λ o. (delete_at o m a).0 ≡ true) (sym found)
      (subst (λ fs. (delete_at (some i) m (record { disk = a.disk; faults = fs })).0 ≡ true)
        (sym works) (delete_works i m a.disk))
