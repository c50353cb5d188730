-- ===== src/Mbr.antt =====
-- The partition table of kernel/fs/mbr.c, in sector 0 of a drive. The sector is the list of its 512 bytes; the
-- drive is the one of Fs. A failed call is `none` or `false`, which stand for -1.
pub mod Table
mod Tests
use stink_os.Base.{
  ℕ, zero, suc, ◌+◌, ◌*◌, ◌/◌, ◌%◌, List, [], ◌∷◌, ◌++◌, Option, none, some, Bool, true, false,
  ◌&&◌, get_or, take, drop, replicate, ◌==◌, if◌then◌else◌,
}
use stink_os.Fs.{Ata, drive_read, drive_write, sector_size}

-- `MBR_PARTS`, `MBR_ENTRY_OFFSET`, `MBR_ENTRY_SIZE`, `MBR_SIG_OFFSET`
abbrev pub mbr_parts : ℕ
mbr_parts = 4

abbrev pub mbr_entry_offset : ℕ
mbr_entry_offset = 446

abbrev pub mbr_entry_size : ℕ
mbr_entry_size = 16

abbrev pub mbr_sig_offset : ℕ
mbr_sig_offset = 510

-- `struct mbr_partition`
pub record Partition : Type 0 where
  pub bootable : ℕ
  pub type_byte : ℕ
  pub first_lba : ℕ
  pub sector_count : ℕ

-- `read_le32(p + i)`
unfoldable pub read_le32 : List ℕ → ℕ → ℕ
read_le32 p i =
    get_or p i 0
    + get_or p (i + 1) 0 * 256
    + get_or p (i + 2) 0 * 65536
    + get_or p (i + 3) 0 * 16777216

-- The bytes that `write_le32` stores.
unfoldable pub write_le32 : ℕ → List ℕ
write_le32 v = v % 256 ∷ v / 256 % 256 ∷ v / 65536 % 256 ∷ v / 16777216 % 256 ∷ []

-- One entry from the bytes at `p`.
unfoldable pub decode_entry : List ℕ → Partition
unfolding read_le32
decode_entry p = record {
  bootable = get_or p 0 0;
  type_byte = get_or p 4 0;
  first_lba = read_le32 p 8;
  sector_count = read_le32 p 12;
}

-- The 16 bytes of an entry; the fields are an `unsigned char` each, or four bytes.
unfoldable pub encode_entry : Partition → List ℕ
unfolding write_le32
encode_entry e =
    e.bootable % 256
    ∷ 0
    ∷ 0
    ∷ 0
    ∷ e.type_byte % 256
    ∷ 0
    ∷ 0
    ∷ 0
    ∷ (write_le32 e.first_lba ++ write_le32 e.sector_count)

-- The loop of `mbr_read` over `left` entries.
unfoldable pub decode_entries : ℕ → List ℕ → List Partition
unfolding decode_entry
decode_entries zero p = []
decode_entries (suc left) p = decode_entry p ∷ decode_entries left (drop mbr_entry_size p)

unfoldable pub encode_entries : List Partition → List ℕ
unfolding encode_entry
encode_entries [] = []
encode_entries (e ∷ l) = encode_entry e ++ encode_entries l

abbrev pub is_signed : List ℕ → Bool
is_signed buf = (get_or buf mbr_sig_offset 0 == 0x55) && (get_or buf (mbr_sig_offset + 1) 0 == 0xAA)

-- What `mbr_read` makes of the buffer.
unfoldable pub parse_mbr : List ℕ → Option (List Partition)
unfolding decode_entries
parse_mbr buf =
    if is_signed buf then some (decode_entries mbr_parts (drop mbr_entry_offset buf)) else none

unfoldable pub mbr_read : ℕ → Ata → Option (List Partition) × Ata
unfolding drive_read parse_mbr
mbr_read drive a =
    let (buf, a') = drive_read drive 0 1 a in
    (elim buf as (λ _. Option (List Partition)) [ none ↦ none | some bytes ↦ parse_mbr bytes ], a')

-- The buffer once its entries and its signature are written: its first 446 bytes are kept.
unfoldable pub fill_mbr : List Partition → List ℕ → List ℕ
unfolding encode_entries
fill_mbr parts buf = take mbr_entry_offset buf ++ (encode_entries parts ++ (0x55 ∷ 0xAA ∷ []))

-- A failed read leaves a sector of zeros.
abbrev pub old_sector : Option (List ℕ) → List ℕ
old_sector none = replicate sector_size 0
old_sector (some bytes) = bytes

unfoldable pub mbr_write : ℕ → List Partition → Ata → Bool × Ata
unfolding drive_read drive_write fill_mbr
mbr_write drive parts a =
    let (buf, a') = drive_read drive 0 1 a in
    drive_write drive 0 1 (fill_mbr parts (old_sector buf)) a'
