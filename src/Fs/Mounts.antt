-- ===== src/Fs/Mounts.antt =====
-- The mount table of kernel/fs/fs.c: the drive letters and the public operations.
use stink_os.Base.{
  ℕ, ◌-◌, List, [], Option, none, some, Bool, true, false, not, ◌&&◌, ◌||◌, ℤ, pos, negsuc, get_or,
  set, drop, ltb, leb, ◌==◌, if◌then◌else◌,
}
use stink_os.Fs.{Ata, Dir, Mount, fs_max_mounts, fs_dir_lba, fs_data_lba, fs_data_end}
use stink_os.Fs.Stink.{
  stinkfs_dir_load, stinkfs_file_write, stinkfs_file_read_at, stinkfs_file_delete,
}
use stink_os.Fs.Update.{
  stinkfs_file_append, stinkfs_file_write_at, stinkfs_file_count, stinkfs_file_size,
  stinkfs_file_info, stinkfs_file_lba_sectors,
}

abbrev empty_dir : Dir
empty_dir = record { magic = 0; count = 0; next_free = 0; files = []; unused_bytes = [] }

abbrev pub no_mount : Mount
no_mount = record {
  present = false;
  drive = 0;
  dir_lba = 0;
  data_lba = 0;
  data_end = 0;
  dir = empty_dir;
}

-- The static variable `mounts`, and the drives.
pub record Fs : Type 0 where
  pub mounts : List Mount
  pub ata : Ata

abbrev pub mount : Fs → ℕ → Mount
mount s i = get_or s.mounts i no_mount

pub active_mount : Fs → Option ℕ
active_mount s = if (mount s 0).present then some 0 else none

abbrev between : ℕ → ℕ → ℕ → Bool
between lo hi c = leb lo c && leb c hi

-- The slot and the name without its drive letter.
pub resolve : List ℕ → Fs → Option ℕ × List ℕ
resolve name s =
    let c = get_or name 0 0 in
    let slot = if leb b'a' c then c - b'a' else c - b'A' in
    if get_or name 1 0 == b':' && (between b'A' b'H' c || between b'a' b'h' c)
    then (if leb fs_max_mounts slot || not (mount s slot).present
        then (none, name)
        else (some slot, drop 2 name))
    else (active_mount s, name)

-- An operation on the mount that was found.
abbrev pub on_mount : Option ℕ → (Mount → Ata → Bool × Mount × Ata) → Fs → Bool × Fs
on_mount none op s = (false, s)
on_mount (some i) op s =
    let (ok, m, a) = op (mount s i) s.ata in (ok, record { mounts = set s.mounts i m; ata = a })

register : ℕ → ℕ → ℕ → ℕ → ℕ → Fs → Bool × Fs
register slot drive dir_lba data_lba data_end s =
    let m : Mount = record {
      present = true;
      drive = drive;
      dir_lba = dir_lba;
      data_lba = data_lba;
      data_end = data_end;
      dir = (mount s slot).dir;
    } in
    let (ok, m', a) = stinkfs_dir_load m s.ata in
    (ok, record { mounts = set s.mounts slot (record m' { present = ok }); ata = a })

pub fs_mount_register : ℤ → ℤ → ℕ → ℕ → ℕ → Fs → Bool × Fs
fs_mount_register (negsuc _) drive dir_lba data_lba data_end s = (false, s)
fs_mount_register (pos slot) (negsuc _) dir_lba data_lba data_end s = (false, s)
fs_mount_register (pos slot) (pos drive) dir_lba data_lba data_end s =
    if leb fs_max_mounts slot
      || (mount s slot).present
      || ltb 3 drive
      || leb data_lba dir_lba
      || leb data_end data_lba
    then (false, s)
    else register slot drive dir_lba data_lba data_end s

pub fs_init : Fs → Bool × Fs
fs_init s = fs_mount_register (pos 0) (pos 0) fs_dir_lba fs_data_lba fs_data_end s

pub fs_file_write : List ℕ → List ℕ → Fs → Bool × Fs
fs_file_write name bytes s =
    let (r, rest) = resolve name s in on_mount r (stinkfs_file_write rest bytes) s

pub fs_file_write_at : List ℕ → List ℕ → ℕ → Fs → Bool × Fs
fs_file_write_at name bytes offset s =
    let (r, rest) = resolve name s in on_mount r (stinkfs_file_write_at rest bytes offset) s

pub fs_file_append : List ℕ → List ℕ → Fs → Bool × Fs
fs_file_append name bytes s =
    let (r, rest) = resolve name s in on_mount r (stinkfs_file_append rest bytes) s

abbrev read_on : Option ℕ → List ℕ → ℕ → ℕ → Fs → Option (List ℕ) × Fs
read_on none rest maxsize offset s = (none, s)
read_on (some i) rest maxsize offset s =
    let (r, a) = stinkfs_file_read_at rest maxsize offset (mount s i) s.ata in
    (r, record s { ata = a })

pub fs_file_read_at : List ℕ → ℕ → ℕ → Fs → Option (List ℕ) × Fs
fs_file_read_at name maxsize offset s =
    let (r, rest) = resolve name s in read_on r rest maxsize offset s

pub fs_file_read : List ℕ → ℕ → Fs → Option (List ℕ) × Fs
fs_file_read name maxsize s = fs_file_read_at name maxsize 0 s

pub fs_file_delete : List ℕ → Fs → Bool × Fs
fs_file_delete name s = let (r, rest) = resolve name s in on_mount r (stinkfs_file_delete rest) s

pub fs_file_count : Fs → ℕ
fs_file_count s = elim (active_mount s) [ none ↦ 0 | some i ↦ stinkfs_file_count (mount s i) ]

pub fs_file_info : ℤ → Fs → Option (ℕ × List ℕ)
fs_file_info index s = elim (active_mount s) [
  | none ↦ none
  | some i ↦ stinkfs_file_info index (mount s i)
]

pub fs_file_size : List ℕ → Fs → Option ℕ
fs_file_size name s =
    let (r, rest) = resolve name s in
    elim r [ none ↦ none | some i ↦ stinkfs_file_size rest (mount s i) ]

pub fs_file_lba_sectors : List ℕ → Fs → Option (ℕ × ℕ)
fs_file_lba_sectors name s =
    let (r, rest) = resolve name s in
    elim r [ none ↦ none | some i ↦ stinkfs_file_lba_sectors rest (mount s i) ]
