-- ===== src/Fs/Stink.antt =====
-- The StinkFS backend of kernel/fs/fs.c: its operations on one mount and the drive.
use stink_os.Base.{
  ℕ, zero, suc, ◌+◌, ◌-◌, ◌/◌, ◌%◌, ◌++◌, List, [], ◌∷◌, Option, none, some, Bool, true, false,
  length, get_or, set, take, drop, replicate, ltb, leb, ◌==◌, if◌then◌else◌, add32, sub32, min,
}
use stink_os.Fs.{
  Ata, drive_write, drive_read, sector_size, stinkfs_magic, fs_dir_sectors, fs_max_files, File, Dir,
  Mount, no_file, file, put_file, encode_dir, decode_dir, name_eq, copy16,
}

unfoldable pub stinkfs_dir_load : Mount → Ata → Bool × Mount × Ata
stinkfs_dir_load m a =
    let (r, a') = drive_read m.drive m.dir_lba fs_dir_sectors a in
    elim r [
      | none ↦ (false, m, a')
      | some bytes ↦
          let d = decode_dir bytes in
          let fresh = record d { magic = stinkfs_magic; count = 0; next_free = m.data_lba } in
          (true, record m { dir = if d.magic == stinkfs_magic then d else fresh }, a')
    ]

unfoldable pub stinkfs_dir_save : Mount → Ata → Bool × Mount × Ata
stinkfs_dir_save m a =
    let (ok, a') = drive_write m.drive m.dir_lba fs_dir_sectors (encode_dir m.dir) a in (ok, m, a')

-- The search with `left` entries to go from entry `i` on.
unfoldable pub find_from : ℕ → ℕ → Dir → List ℕ → Option ℕ
find_from zero i d name = none
find_from (suc left) i d name =
    let rest = find_from left (i + 1) d name in
    if name_eq (file d i).name name then some i else rest

unfoldable pub stinkfs_find : Dir → List ℕ → Option ℕ
stinkfs_find d name = find_from d.count 0 d name

abbrev pub need_sectors : ℕ → ℕ
need_sectors size = add32 size 511 / 512

-- A fresh extent behind all others: for a file that has an entry, and for a new one.
abbrev pub place_again : ℕ → ℕ → Dir → Option ℕ × Dir
place_again i need d = (
  some i,
  put_file i (record (file d i) { start = d.next_free })
      (record d { next_free = add32 d.next_free need }),
)

abbrev pub new_entry : ℕ → List ℕ → Dir → Option ℕ × Dir
new_entry need name d = (
  some d.count,
  put_file d.count (record (file d d.count) { name = copy16 16 0 name; start = d.next_free })
      (record d { next_free = add32 d.next_free need; count = d.count + 1 }),
)

abbrev pub place_new : ℕ → List ℕ → Dir → Option ℕ × Dir
place_new need name d =
    if leb fs_max_files d.count
    then (none, record d { next_free = add32 d.next_free need })
    else new_entry need name d

-- The entry and the extent that `stinkfs_file_write` uses.
unfoldable pub place : Option ℕ → ℕ → ℕ → List ℕ → Dir → Option ℕ × Dir
place none need data_end name d =
    if ltb data_end (add32 d.next_free need) then (none, d) else place_new need name d
place (some i) need data_end name d =
    if leb need (need_sectors (file d i).size)
    then (some i, d)
    else if ltb data_end (add32 d.next_free need)
    then (none, d)
    else place_again i need d

-- The loop that writes the bytes sector by sector, padded with zeros, for at most `rounds` rounds.
unfoldable pub write_sectors : ℕ → ℕ → ℕ → List ℕ → Ata → Bool × Ata
write_sectors zero drive lba src a = (true, a)
write_sectors (suc rounds) drive lba [] a = (true, a)
write_sectors (suc rounds) drive lba (c ∷ cs) a =
    let chunk = take sector_size (c ∷ cs) in
    let io_buf = chunk ++ replicate (sector_size - length chunk) 0 in
    let (ok, a') = drive_write drive lba 1 io_buf a in
    let rest = write_sectors rounds drive (add32 lba 1) (drop sector_size (c ∷ cs)) a' in
    if ok then rest else (false, a')

unfoldable pub save_if : Bool → Mount → Ata → Bool × Mount × Ata
save_if false m a = (false, m, a)
save_if true m a = stinkfs_dir_save m a

unfoldable pub write_placed : Option ℕ → List ℕ → Mount → Ata → Bool × Mount × Ata
write_placed none bytes m a = (false, m, a)
write_placed (some i) bytes m a =
    let m' = record m { dir = put_file i (record (file m.dir i) { size = length bytes }) m.dir } in
    let (ok, a') = write_sectors (length bytes) m.drive (file m.dir i).start bytes a in
    save_if ok m' a'

unfoldable pub stinkfs_file_write : List ℕ → List ℕ → Mount → Ata → Bool × Mount × Ata
stinkfs_file_write name bytes m a =
    let (r, d) =
      place (stinkfs_find m.dir name) (need_sectors (length bytes)) m.data_end name m.dir in
    write_placed r bytes (record m { dir = d }) a

-- The loop that reads `remaining` bytes from byte `at` of the file on, for at most `rounds` rounds.
unfoldable pub read_bytes : ℕ → ℕ → ℕ → ℕ → ℕ → Ata → Option (List ℕ) × Ata
read_bytes zero drive start at remaining a = (some [], a)
read_bytes (suc rounds) drive start at zero a = (some [], a)
read_bytes (suc rounds) drive start at (suc more) a =
    let remaining = suc more in
    let off = at % 512 in
    let chunk = min (512 - off) remaining in
    let (r, a') = drive_read drive (add32 start (at / 512)) 1 a in
    let (rest, a'') = read_bytes rounds drive start (add32 at chunk) (remaining - chunk) a' in
    elim r [
      | none ↦ (none, a')
      | some sector ↦ elim rest [
        | none ↦ (none, a'')
        | some out ↦ (some (take chunk (drop off sector) ++ out), a'')
      ]
    ]

unfoldable pub read_file : Option ℕ → ℕ → ℕ → Mount → Ata → Option (List ℕ) × Ata
read_file none maxsize offset m a = (none, a)
read_file (some i) maxsize offset m a =
    let size = (file m.dir i).size in
    if leb size offset
    then (some [], a)
    else let n = min (size - offset) maxsize in read_bytes n m.drive (file m.dir i).start offset n a

-- The bytes that the call stores in the buffer; their number is its result.
unfoldable pub stinkfs_file_read_at : List ℕ → ℕ → ℕ → Mount → Ata → Option (List ℕ) × Ata
stinkfs_file_read_at name maxsize offset m a =
    read_file (stinkfs_find m.dir name) maxsize offset m a

-- The loops that copy one sector after the other, `left` of them, from `from` to `to`.
unfoldable pub copy_sectors : ℕ → ℕ → ℕ → ℕ → Ata → Bool × Ata
copy_sectors zero drive from to a = (true, a)
copy_sectors (suc left) drive from to a =
    let (r, a') = drive_read drive from 1 a in
    elim r [
      | none ↦ (false, a')
      | some sector ↦
          let (ok, a'') = drive_write drive to 1 sector a' in
          let rest = copy_sectors left drive (add32 from 1) (add32 to 1) a'' in
          if ok then rest else (false, a'')
    ]

-- An entry after `freed` sectors from `hole` on are taken out.
abbrev pub shifted : ℕ → ℕ → File → File
shifted hole freed f = record f {
  start = if ltb hole f.start then sub32 f.start freed else f.start;
}

-- The loop over the first `left` entries.
unfoldable pub shift_starts : ℕ → ℕ → ℕ → List File → List File
shift_starts zero hole freed files = files
shift_starts (suc left) hole freed [] = []
shift_starts (suc left) hole freed (f ∷ fs) = shifted hole freed f ∷ shift_starts left hole freed fs

-- The entries with `left` ones copied one place down from place `i` on.
unfoldable pub close_gap : ℕ → ℕ → List File → List File
close_gap zero i files = files
close_gap (suc left) i files = close_gap left (i + 1) (set files i (get_or files (i + 1) no_file))

-- The directory after entry `i` is taken out.
unfoldable pub removed : ℕ → Dir → Dir
removed i d =
    let freed = need_sectors (file d i).size in
    let hole = (file d i).start in
    record d {
      files = close_gap (d.count - 1 - i) i (shift_starts d.count hole freed d.files);
      count = d.count - 1;
      next_free = sub32 d.next_free freed;
    }

unfoldable pub delete_at : Option ℕ → Mount → Ata → Bool × Mount × Ata
delete_at none m a = (false, m, a)
delete_at (some i) m a =
    let freed = need_sectors (file m.dir i).size in
    let hole = (file m.dir i).start in
    let first = add32 hole freed in
    let (ok, a') = copy_sectors (m.dir.next_free - first) m.drive first hole a in
    save_if ok (if ok then record m { dir = removed i m.dir } else m) a'

unfoldable pub stinkfs_file_delete : List ℕ → Mount → Ata → Bool × Mount × Ata
stinkfs_file_delete name m a = delete_at (stinkfs_find m.dir name) m a

-- The extent of a file that is not the last one moves behind all others, into `new_sect` sectors.
unfoldable pub grow_moved : ℕ → ℕ → Mount → Ata → Bool × Mount × Ata
grow_moved i new_sect m a =
    let d = m.dir in
    let f = file d i in
    if ltb m.data_end (add32 d.next_free new_sect)
    then (false, m, a)
    else let (ok, a') = copy_sectors (need_sectors f.size) m.drive f.start d.next_free a in
      let moved =
        put_file i (record f { start = d.next_free })
          (record d { next_free = add32 d.next_free new_sect }) in
      (ok, (if ok then record m { dir = moved } else m), a')

unfoldable pub stinkfs_grow : ℕ → ℕ → Mount → Ata → Bool × Mount × Ata
stinkfs_grow i new_size m a =
    let d = m.dir in
    let f = file d i in
    let old_sect = need_sectors f.size in
    let new_sect = need_sectors new_size in
    if leb new_sect old_sect
    then (true, m, a)
    else if add32 f.start old_sect == d.next_free
    then (if ltb m.data_end (add32 f.start new_sect)
        then (false, m, a)
        else (true, record m { dir = record d { next_free = add32 f.start new_sect } }, a))
    else grow_moved i new_sect m a

-- The loop that changes the bytes of a file from byte `at` on, for at most `rounds` rounds.
pub put_bytes : ℕ → ℕ → ℕ → ℕ → List ℕ → Ata → Bool × Ata
put_bytes zero drive start at src a = (true, a)
put_bytes (suc rounds) drive start at [] a = (true, a)
put_bytes (suc rounds) drive start at (c ∷ cs) a =
    let off = at % 512 in
    let chunk = min (512 - off) (length (c ∷ cs)) in
    let sec = add32 start (at / 512) in
    let (r, a') = drive_read drive sec 1 a in
    elim r [
      | none ↦ (false, a')
      | some sector ↦
          let io_buf = take off sector ++ (take chunk (c ∷ cs) ++ drop (off + chunk) sector) in
          let (ok, a'') = drive_write drive sec 1 io_buf a' in
          let rest = put_bytes rounds drive start (add32 at chunk) (drop chunk (c ∷ cs)) a'' in
          if ok then rest else (false, a'')
    ]

pub stinkfs_put : ℕ → ℕ → ℕ → List ℕ → Ata → Bool × Ata
stinkfs_put drive start at bytes a = put_bytes (length bytes) drive start at bytes a
