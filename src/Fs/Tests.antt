-- ===== src/Fs/Tests.antt =====
-- StinkFS on concrete input: a drive of zeros, one with two files, and the first of them deleted.
use stink_os.Base.{
  ℕ, ◌+◌, ◌≤◌, ◌≡◌, ◌≢◌, refl, List, [], ◌∷◌, none, some, true, length, replicate, arith,
  length-replicate, take, drop, min, ◌-◌,
}
use stink_os.Fs.{
  Ata, Dir, File, Mount, no_file, fs_max_files, fs_dir_sectors, stinkfs_magic, decode_dir,
  drive_read, drive_write, load, name_eq, name_eq_from, copy16, word32,
}
use stink_os.Fs.Stink.{
  find_from, stinkfs_find, stinkfs_file_write, stinkfs_file_delete, place, write_placed,
  write_sectors, save_if, stinkfs_dir_save, stinkfs_file_read_at, read_file, read_bytes,
}
use stink_os.Fs.Update.{stinkfs_file_write_at}
use stink_os.Fs.Extents.{IsValid}
use stink_os.Fs.Write.{stinkfs_file_write-IsValid}
use stink_os.Fs.Append.{stinkfs_file_write_at-IsValid}
use stink_os.Fs.Move.{IsSectors}
use stink_os.Fs.Kept.{Kept, stinkfs_file_delete-Kept}
use stink_os.Fs.Works.{stinkfs_file_write_works}
use stink_os.Fs.Roundtrip.{stinkfs_file_read_at-file_write}
use stink_os.Fs.Load.{stinkfs_file_delete_works}

abbrev letter_a : List ℕ
letter_a = b'a' ∷ []

abbrev letter_b : List ℕ
letter_b = b'b' ∷ []

abbrev empty_dir : Dir
empty_dir = record {
  magic = stinkfs_magic;
  count = 0;
  next_free = 516;
  files = replicate fs_max_files no_file;
  unused_bytes = replicate 116 0;
}

abbrev volume : Mount
volume = record {
  present = true;
  drive = 0;
  dir_lba = 512;
  data_lba = 516;
  data_end = 200516;
  dir = empty_dir;
}

abbrev zeros : Ata
zeros = record { disk = λ d l. replicate 512 0; faults = [] }

-- A drive whose second command fails.
abbrev failing : Ata
failing = record { disk = λ d l. replicate 512 0; faults = none ∷ some 0 ∷ [] }

volume-IsValid : IsValid volume
volume-IsValid = record {
  low = omega arith;
  high = omega arith;
  no_wrap = omega arith;
  slots = length-replicate {A = File} fs_max_files no_file;
  counted = omega arith;
  placed = λ i h. absurd (omega arith);
  apart = λ i j h. absurd (omega arith);
}

stinkfs_file_write-IsValid_example : IsValid (stinkfs_file_write letter_a letter_b volume failing).1
stinkfs_file_write-IsValid_example =
    stinkfs_file_write-IsValid letter_a letter_b failing volume-IsValid

abbrev one_file : Mount
one_file = (stinkfs_file_write letter_a letter_b volume zeros).1

one_file-IsValid : IsValid one_file
one_file-IsValid = stinkfs_file_write-IsValid letter_a letter_b zeros volume-IsValid

abbrev two_files : Mount
two_files = (stinkfs_file_write letter_b letter_b one_file zeros).1

two_files-IsValid : IsValid two_files
two_files-IsValid = stinkfs_file_write-IsValid letter_b letter_b zeros one_file-IsValid

stinkfs_file_write_at-IsValid_example :
    IsValid (stinkfs_file_write_at letter_a letter_b 1 two_files failing).1
stinkfs_file_write_at-IsValid_example =
    stinkfs_file_write_at-IsValid letter_a letter_b 1 failing two_files-IsValid

found_first : stinkfs_find two_files.dir letter_a ≡ some 0
unfolding stinkfs_find find_from stinkfs_file_write place write_placed write_sectors drive_write
    save_if stinkfs_dir_save name_eq replicate name_eq_from copy16
found_first = refl

zeros-IsSectors : IsSectors 0 zeros
zeros-IsSectors l = length-replicate {A = ℕ} 512 0

deleted : (stinkfs_file_delete letter_a two_files zeros).0 ≡ true
deleted = stinkfs_file_delete_works letter_a 0 two_files zeros refl found_first

two_files_bounds : (two_files.drive ≡ 0) × (two_files.dir_lba + fs_dir_sectors ≤ two_files.data_lba)
unfolding stinkfs_file_write write_placed write_sectors drive_write save_if stinkfs_dir_save place
    replicate stinkfs_find find_from name_eq name_eq_from copy16
two_files_bounds = (refl, omega arith)

stinkfs_file_delete-Kept_example :
    Kept 0 two_files zeros (stinkfs_file_delete letter_a two_files zeros)
stinkfs_file_delete-Kept_example =
    stinkfs_file_delete-Kept letter_a 0 two_files-IsValid (λ l. length-replicate {A = ℕ} 512 0)
      two_files_bounds.1 found_first deleted

abbrev zero_sectors : List ℕ
zero_sectors = load fs_dir_sectors (zeros.disk 0) 512

zeros_read : (drive_read volume.drive volume.dir_lba fs_dir_sectors zeros).0 ≡ some zero_sectors
unfolding drive_read
zeros_read = refl

no_magic : (decode_dir zero_sectors).magic ≢ stinkfs_magic
unfolding decode_dir load replicate word32
no_magic e = omega (arith, e)

abbrev digits : List ℕ
digits = b'1' ∷ b'2' ∷ b'3' ∷ []

wrote_digits : (stinkfs_file_write letter_a digits volume zeros).0 ≡ true
unfolding stinkfs_find find_from stinkfs_file_write place write_placed write_sectors drive_write
    save_if stinkfs_dir_save name_eq replicate name_eq_from copy16
wrote_digits = refl

abbrev tail_digits : List ℕ
tail_digits = b'2' ∷ b'3' ∷ []

read_tail :
    (stinkfs_file_read_at letter_a 2 1
      (stinkfs_file_write letter_a digits volume zeros).1
      (record ((stinkfs_file_write letter_a digits volume zeros).2) { faults = [] })).0
    ≡ some tail_digits
unfolding stinkfs_find find_from stinkfs_file_write place write_placed write_sectors drive_write
    drive_read load save_if stinkfs_dir_save name_eq replicate name_eq_from copy16
    stinkfs_file_read_at read_file read_bytes
read_tail = refl

stinkfs_file_read_at-file_write_example :
    tail_digits ≡ take (min (length digits - 1) 2) (drop 1 digits)
stinkfs_file_read_at-file_write_example =
    stinkfs_file_read_at-file_write letter_a digits 2 1 [] tail_digits volume zeros volume-IsValid
      (λ l. length-replicate {A = ℕ} 512 0) (omega arith) (omega arith) wrote_digits read_tail

not_there : stinkfs_find volume.dir letter_a ≡ none
unfolding stinkfs_find find_from
not_there = refl

stinkfs_file_write_works_example : (stinkfs_file_write letter_a digits volume zeros).0 ≡ true
stinkfs_file_write_works_example =
    stinkfs_file_write_works letter_a digits volume zeros refl not_there (omega arith) (omega arith)
