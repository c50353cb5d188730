-- ===== src/Fs/Update.antt =====
-- The operations of StinkFS that change a file in place, and the queries.
use stink_os.Base.{
  ℕ, zero, suc, ◌+◌, List, [], ◌∷◌, Option, none, some, Bool, true, false, ◌||◌, ℤ, pos, negsuc,
  length, ltb, leb, ◌==◌, if◌then◌else◌, add32,
}
use stink_os.Fs.{Ata, Dir, Mount, file, put_file, name_ci_eq}
use stink_os.Fs.Stink.{
  stinkfs_find, need_sectors, save_if, stinkfs_file_write, stinkfs_grow, stinkfs_put,
}

-- The bytes go to place `at` of file `i`; `ok` is whether the file could be grown for them.
abbrev pub put_and_save : Bool → ℕ → ℕ → List ℕ → (Dir → Dir) → Mount → Ata → Bool × Mount × Ata
put_and_save grown i at bytes resize m a =
    let (ok, a') = stinkfs_put m.drive (file m.dir i).start at bytes a in
    elim grown [
      | false ↦ (false, m, a)
      | true ↦ save_if ok (if ok then record m { dir = resize m.dir } else m) a'
    ]

abbrev pub resized : ℕ → ℕ → Dir → Dir
resized i size d = put_file i (record (file d i) { size = size }) d

unfoldable pub append_at : Option ℕ → List ℕ → List ℕ → Mount → Ata → Bool × Mount × Ata
append_at none name bytes m a = stinkfs_file_write name bytes m a
append_at (some i) name [] m a = (true, m, a)
append_at (some i) name (c ∷ cs) m a =
    let old_size = (file m.dir i).size in
    let new_size = add32 old_size (length (c ∷ cs)) in
    let (grown, m', a') = stinkfs_grow i new_size m a in
    if ltb new_size old_size
    then (false, m, a)
    else put_and_save grown i old_size (c ∷ cs) (resized i new_size) m' a'

unfoldable pub stinkfs_file_append : List ℕ → List ℕ → Mount → Ata → Bool × Mount × Ata
stinkfs_file_append name bytes m a = append_at (stinkfs_find m.dir name) name bytes m a

-- The size is set before the bytes are written.
unfoldable pub grow_to : ℕ → ℕ → Mount → Ata → Bool × Mount × Ata
grow_to i end m a =
    let (grown, m', a') = stinkfs_grow i end m a in
    if ltb (file m.dir i).size end
    then (grown, (if grown then record m' { dir = resized i end m'.dir } else m'), a')
    else (true, m, a)

unfoldable pub same_dir : Dir → Dir
same_dir d = d

unfoldable pub write_at : Option ℕ → List ℕ → List ℕ → ℕ → Mount → Ata → Bool × Mount × Ata
write_at none name bytes offset m a =
    if offset == 0 then stinkfs_file_write name bytes m a else (false, m, a)
write_at (some i) name bytes offset m a =
    let end = add32 offset (length bytes) in
    let (grown, m', a') = grow_to i end m a in
    if ltb (file m.dir i).size offset || ltb end offset
    then (false, m, a)
    else put_and_save grown i offset bytes same_dir m' a'

unfoldable pub stinkfs_file_write_at : List ℕ → List ℕ → ℕ → Mount → Ata → Bool × Mount × Ata
stinkfs_file_write_at name [] offset m a = (true, m, a)
stinkfs_file_write_at name (c ∷ cs) offset m a =
    write_at (stinkfs_find m.dir name) name (c ∷ cs) offset m a

pub stinkfs_file_count : Mount → ℕ
stinkfs_file_count m = m.dir.count

pub stinkfs_file_size : List ℕ → Mount → Option ℕ
stinkfs_file_size name m = elim (stinkfs_find m.dir name) [
  | none ↦ none
  | some i ↦ some (file m.dir i).size
]

pub stinkfs_file_info : ℤ → Mount → Option (ℕ × List ℕ)
stinkfs_file_info (negsuc _) m = none
stinkfs_file_info (pos index) m =
    if leb m.dir.count index then none else some ((file m.dir index).size, (file m.dir index).name)

lba_sectors_from : ℕ → ℕ → List ℕ → Dir → Option (ℕ × ℕ)
lba_sectors_from zero i name d = none
lba_sectors_from (suc left) i name d =
    let rest = lba_sectors_from left (i + 1) name d in
    if name_ci_eq (file d i).name name
    then some ((file d i).start, need_sectors (file d i).size)
    else rest

pub stinkfs_file_lba_sectors : List ℕ → Mount → Option (ℕ × ℕ)
stinkfs_file_lba_sectors name m = lba_sectors_from m.dir.count 0 name m.dir
