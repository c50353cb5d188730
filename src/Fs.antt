-- ===== src/Fs.antt =====
-- The file system of kernel/fs/fs.c: the directory, the names and the drive. A buffer with its size
-- is the list of its bytes. A failed call is `none` or `false`, which stand for -1.
--
-- The drive is a table of sectors, together with the outcomes of the commands to come: a command that
-- fails stops after some of its sectors, and an empty list of outcomes means that all succeed.
-- The sector numbers are the C code's own: the driver's cut to the 28 bits that its command carries is
-- left out, as are buffers of 2^32 bytes and more, whose size the C parameter does not hold.
pub mod Stink
pub mod Update
pub mod Mounts
pub mod Extents
pub mod Names
pub mod Write
pub mod Delete
pub mod Grow
pub mod Append
pub mod Move
pub mod Kept
pub mod Load
pub mod Bytes
pub mod Store
pub mod Found
pub mod Roundtrip
pub mod Works
mod Tests
use stink_os.Base.{
  ℕ, zero, suc, ◌+◌, ◌-◌, ◌*◌, ◌/◌, ◌%◌, ◌++◌, List, [], ◌∷◌, Option, none, some, Bool, true, false,
  not, ◌&&◌, ◌||◌, length, get_or, set, take, drop, replicate, ltb, leb, ◌==◌, if◌then◌else◌, add32,
  sub32, min,
}

abbrev pub sector_size : ℕ
sector_size = 512

pub record Ata : Type 0 where
  pub disk : ℕ → ℕ → List ℕ
  pub faults : List (Option ℕ)

-- How many of `count` sectors the next command transfers, and whether it succeeds.
abbrev pub outcome : ℕ → List (Option ℕ) → ℕ × Bool
outcome count [] = (count, true)
outcome count (none ∷ faults) = (count, true)
outcome count (some k ∷ faults) = (min k count, false)

abbrev pub later : List (Option ℕ) → List (Option ℕ)
later [] = []
later (f ∷ faults) = faults

-- The disk after `n` sectors from `lba` on were written.
abbrev pub store : ℕ → ℕ → ℕ → List ℕ → (ℕ → ℕ → List ℕ) → ℕ → ℕ → List ℕ
store drive lba n bytes disk d l =
    if d == drive && (leb lba l && ltb l (lba + n))
    then take sector_size (drop ((l - lba) * sector_size) bytes)
    else disk d l

unfoldable pub drive_write : ℕ → ℕ → ℕ → List ℕ → Ata → Bool × Ata
drive_write drive lba count bytes a =
    let (n, ok) = outcome count a.faults in
    (ok, record { disk = store drive lba n bytes a.disk; faults = later a.faults })

-- The bytes of `count` sectors from `lba` on.
unfoldable pub load : ℕ → (ℕ → List ℕ) → ℕ → List ℕ
load zero disk lba = []
load (suc count) disk lba = disk lba ++ load count disk (lba + 1)

unfoldable pub drive_read : ℕ → ℕ → ℕ → Ata → Option (List ℕ) × Ata
drive_read drive lba count a =
    let (n, ok) = outcome count a.faults in
    (
      (if ok then some (load count (a.disk drive) lba) else none),
      record { disk = a.disk; faults = later a.faults },
    )

-- `STINKFS_MAGIC` and the sizes of the directory
abbrev pub stinkfs_magic : ℕ
stinkfs_magic = 0x4B4E5453

abbrev pub fs_dir_lba : ℕ
fs_dir_lba = 512

abbrev pub fs_dir_sectors : ℕ
fs_dir_sectors = 4

abbrev pub fs_data_lba : ℕ
fs_data_lba = 516

abbrev pub fs_data_end : ℕ
fs_data_end = 200516

abbrev pub fs_max_files : ℕ
fs_max_files = 80

abbrev pub fs_max_mounts : ℕ
fs_max_mounts = 2

-- `struct fs_file`
pub record File : Type 0 where
  pub name : List ℕ
  pub start : ℕ
  pub size : ℕ

-- `struct fs_dir`, with the bytes of the directory buffer after it.
pub record Dir : Type 0 where
  pub magic : ℕ
  pub count : ℕ
  pub next_free : ℕ
  pub files : List File
  pub unused_bytes : List ℕ

-- `struct fs_mount`. There is one backend, so `ops` is left out; `io_buf` is filled before each use
-- and is the buffer that is passed to the drive.
pub record Mount : Type 0 where
  pub present : Bool
  pub drive : ℕ
  pub dir_lba : ℕ
  pub data_lba : ℕ
  pub data_end : ℕ
  pub dir : Dir

abbrev pub no_file : File
no_file = record { name = []; start = 0; size = 0 }

abbrev pub file : Dir → ℕ → File
file d i = get_or d.files i no_file

abbrev pub put_file : ℕ → File → Dir → Dir
put_file i f d = record d { files = set d.files i f }

-- Numbers of the packed structures, low byte first.
pub bytes32 : ℕ → List ℕ
bytes32 n = n % 256 ∷ n / 256 % 256 ∷ n / 65536 % 256 ∷ n / 16777216 % 256 ∷ []

pub word32 : List ℕ → ℕ
word32 b = get_or b 0 0 + get_or b 1 0 * 256 + get_or b 2 0 * 65536 + get_or b 3 0 * 16777216

pub encode_file : File → List ℕ
encode_file f = f.name ++ (bytes32 f.start ++ bytes32 f.size)

pub encode_files : List File → List ℕ
encode_files [] = []
encode_files (f ∷ fs) = encode_file f ++ encode_files fs

-- The directory buffer as bytes. In C the packed `struct fs_dir` is overlaid on the buffer, and nothing
-- is converted: these functions say which bytes of the buffer each of its fields is.
pub encode_dir : Dir → List ℕ
encode_dir d =
    bytes32 d.magic
    ++ (bytes32 d.count ++ (bytes32 d.next_free ++ (encode_files d.files ++ d.unused_bytes)))

pub decode_file : List ℕ → File
decode_file b = record { name = take 16 b; start = word32 (drop 16 b); size = word32 (drop 20 b) }

pub decode_files : ℕ → List ℕ → List File
decode_files zero b = []
decode_files (suc n) b = decode_file b ∷ decode_files n (drop 24 b)

pub decode_dir : List ℕ → Dir
decode_dir b = record {
  magic = word32 b;
  count = word32 (drop 4 b);
  next_free = word32 (drop 8 b);
  files = decode_files fs_max_files (drop 12 b);
  unused_bytes = drop (12 + 24 * fs_max_files) b;
}

-- The rounds of `name_eq` from character `i` on. A name that is shorter than 16 bytes ends in zeros.
name_eq_from : ℕ → ℕ → List ℕ → List ℕ → Bool
name_eq_from zero i a b = true
name_eq_from (suc left) i a b =
    let rest = name_eq_from left (i + 1) a b in
    if not (get_or a i 0 == get_or b i 0) then false else if get_or a i 0 == 0 then true else rest

pub name_eq : List ℕ → List ℕ → Bool
name_eq a b = name_eq_from 16 0 a b

abbrev pub upper : ℕ → ℕ
upper c = if leb b'a' c && leb c b'z' then c - 32 else c

name_ci_eq_from : ℕ → ℕ → List ℕ → List ℕ → Bool
name_ci_eq_from zero i a b = true
name_ci_eq_from (suc left) i a b =
    let rest = name_ci_eq_from left (i + 1) a b in
    let ca = upper (get_or a i 0) in
    let cb = upper (get_or b i 0) in
    if not (ca == cb) then false else if ca == 0 then true else rest

pub name_ci_eq : List ℕ → List ℕ → Bool
name_ci_eq a b = name_ci_eq_from 16 0 a b

-- The first 16 characters of a name, as they are copied into an entry.
unfoldable pub copy16 : ℕ → ℕ → List ℕ → List ℕ
copy16 zero i name = []
copy16 (suc left) i name = get_or name i 0 ∷ copy16 left (i + 1) name
