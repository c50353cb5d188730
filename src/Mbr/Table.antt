-- ===== src/Mbr/Table.antt =====
-- The partition table of kernel/fs/mbr.c, written and read back.
use stink_os.Base.{
  take-append, drop-append, ℕ, suc, ◌+◌, ◌*◌, ◌^◌, ◌<◌, ◌≡◌, ◌≢◌, ◌⊎◌, inl, inr, ◌∙◌, refl, sym, ap,
  List, [], ◌∷◌, ◌++◌, Option, none, some, true, length, take, drop, get_or, arith, All,
  append_assoc, length-append, length-take, length-replicate,
}
use stink_os.Fs.{Ata, drive_read, sector_size}
use stink_os.Fs.Move.{IsSectors, drive_read-cases, drive_write-Wrote}
use stink_os.Mbr.{
  Partition, read_le32, write_le32, decode_entry, encode_entry, decode_entries, encode_entries,
  is_signed, parse_mbr, fill_mbr, old_sector, mbr_read, mbr_write, mbr_parts, mbr_entry_offset,
  mbr_entry_size,
}

-- The fields are in their widths.
pub record FitsEntry (e : Partition) : Type 0 where
  pub bootable_fits : e.bootable < 256
  pub type_fits : e.type_byte < 256
  pub lba_fits : e.first_lba < 2 ^ 32
  pub count_fits : e.sector_count < 2 ^ 32

length-encode_entry : (e : Partition) → length (encode_entry e) ≡ mbr_entry_size
unfolding encode_entry write_le32
length-encode_entry e = refl

decode-encode_entry :
    (e : Partition) (rest : List ℕ) → FitsEntry e → decode_entry (encode_entry e ++ rest) ≡ e
unfolding decode_entry encode_entry read_le32 write_le32
decode-encode_entry e rest f =
    ground (arith, f.bootable_fits, f.type_fits, f.lba_fits, f.count_fits)

decode-encode_entries :
    (l : List Partition) (rest : List ℕ)
    → All FitsEntry l
    → decode_entries (length l) (encode_entries l ++ rest) ≡ l
unfolding decode_entries encode_entries
decode-encode_entries [] rest f = refl
decode-encode_entries (e ∷ l) rest (f, fs) =
    let split = append_assoc (encode_entry e) (encode_entries l) rest in
    ap (λ b. decode_entry b ∷ decode_entries (length l) (drop mbr_entry_size b)) split
    ∙ ap
        (λ x.
          x
          ∷ decode_entries (length l)
              (drop mbr_entry_size (encode_entry e ++ (encode_entries l ++ rest))))
        (decode-encode_entry e (encode_entries l ++ rest) f)
    ∙ ap (λ b. e ∷ decode_entries (length l) b)
        (drop-append (encode_entry e) (encode_entries l ++ rest) mbr_entry_size
          (length-encode_entry e))
    ∙ ap (λ x. e ∷ x) (decode-encode_entries l rest fs)

length-encode_entries : (l : List Partition) → length (encode_entries l) ≡ mbr_entry_size * length l
unfolding encode_entries
length-encode_entries [] = refl
length-encode_entries (e ∷ l) = omega (
  arith,
  length-append (encode_entry e) (encode_entries l),
  length-encode_entry e,
  length-encode_entries l,
)

-- Reading behind the front part of a buffer.
get_or-append :
    (xs ys : List ℕ) (n i : ℕ) → length xs ≡ n → get_or (xs ++ ys) (n + i) 0 ≡ get_or ys i 0
get_or-append [] ys n i e = ap (λ k. get_or ys k 0) (omega arith)
get_or-append (x ∷ xs) ys n i e =
    ap (λ k. get_or (x ∷ (xs ++ ys)) k 0) next ∙ get_or-append xs ys (length xs) i refl
  where
    next : n + i ≡ suc (length xs + i)
    next = omega (arith, e)

parse_mbr_signed :
    (b : List ℕ)
    → is_signed b ≡ true
    → parse_mbr b ≡ some (decode_entries mbr_parts (drop mbr_entry_offset b))
unfolding parse_mbr
parse_mbr_signed b e = rw e refl

module _ (parts : List Partition) (buf : List ℕ) (four : length parts ≡ mbr_parts)
    (long : length buf ≡ sector_size) where
  length-kept : length (take mbr_entry_offset buf) ≡ mbr_entry_offset
  length-kept = omega (arith, length-take mbr_entry_offset buf)

  front : List ℕ
  front = take mbr_entry_offset buf ++ encode_entries parts

  length-front : length front ≡ 510
  unfolding front
  length-front = omega (
    arith,
    length-append (take mbr_entry_offset buf) (encode_entries parts),
    length-kept,
    length-encode_entries parts,
    four,
  )

  fill_mbr-front : fill_mbr parts buf ≡ front ++ (0x55 ∷ 0xAA ∷ [])
  unfolding fill_mbr front
  fill_mbr-front =
      sym (append_assoc (take mbr_entry_offset buf) (encode_entries parts) (0x55 ∷ 0xAA ∷ []))

  pub length-fill_mbr : length (fill_mbr parts buf) ≡ sector_size
  length-fill_mbr =
      omega (arith, ap length fill_mbr-front, length-append front (0x55 ∷ 0xAA ∷ []), length-front)

  fill_mbr-is_signed : is_signed (fill_mbr parts buf) ≡ true
  fill_mbr-is_signed =
      signed (fill_mbr parts buf)
        (ap (λ b. get_or b 510 0) fill_mbr-front
          ∙ get_or-append front (0x55 ∷ 0xAA ∷ []) 510 0 length-front)
        (ap (λ b. get_or b 511 0) fill_mbr-front
          ∙ get_or-append front (0x55 ∷ 0xAA ∷ []) 510 1 length-front)
    where
      signed : (b : List ℕ) → get_or b 510 0 ≡ 0x55 → get_or b 511 0 ≡ 0xAA → is_signed b ≡ true
      signed b e e' = rw (e, e') refl

  -- The entries that were filled in are the ones that are parsed.
  pub parse_mbr-fill_mbr : All FitsEntry parts → parse_mbr (fill_mbr parts buf) ≡ some parts
  parse_mbr-fill_mbr fits =
      parse_mbr_signed (fill_mbr parts buf) fill_mbr-is_signed
      ∙ ap (λ b. some (decode_entries mbr_parts b)) behind
      ∙ ap (λ n. some (decode_entries n (encode_entries parts ++ (0x55 ∷ 0xAA ∷ [])))) (sym four)
      ∙ ap some (decode-encode_entries parts (0x55 ∷ 0xAA ∷ []) fits)
    where
      behind :
          drop mbr_entry_offset (fill_mbr parts buf) ≡ encode_entries parts ++ (0x55 ∷ 0xAA ∷ [])
      behind =
          unfold fill_mbr in
          drop-append (take mbr_entry_offset buf) (encode_entries parts ++ (0x55 ∷ 0xAA ∷ []))
            mbr_entry_offset length-kept

  pub take-fill_mbr : take mbr_entry_offset (fill_mbr parts buf) ≡ take mbr_entry_offset buf
  unfolding fill_mbr
  take-fill_mbr =
      take-append (take mbr_entry_offset buf) (encode_entries parts ++ (0x55 ∷ 0xAA ∷ []))
        mbr_entry_offset length-kept

-- The drive after the write of sector 0: its bootstrap code is that of `old`, and every other sector and
-- every other drive is as it was.
pub record Updated (drive : ℕ) (old : List ℕ) (a a' : Ata) : Type 0 where
  pub bootstrap : take mbr_entry_offset (a'.disk drive 0) ≡ take mbr_entry_offset old
  pub others : (d k : ℕ) → (d ≢ drive) ⊎ (0 ≢ k) → a'.disk d k ≡ a.disk d k

-- The table read from the drive, with what the drive made of the read command.
pub data ReadBack (drive : ℕ) (parts : List Partition) (a : Ata) : Type 0 where
  drive_failed :
      (drive_read drive 0 1 a).0 ≡ none → (mbr_read drive a).0 ≡ none → ReadBack drive parts a
  same_parts :
      (drive_read drive 0 1 a).0 ≡ some (a.disk drive 0)
      → (mbr_read drive a).0 ≡ some parts
      → ReadBack drive parts a

abbrev read_old : ℕ → Ata → Option (List ℕ)
read_old drive a = (drive_read drive 0 1 a).0

length-old_sector :
    (drive : ℕ) (a : Ata) → IsSectors drive a → length (old_sector (read_old drive a)) ≡ sector_size
length-old_sector drive a v = elim (drive_read-cases drive 0 a).1 [
  | inl e ↦ ap (λ o. length (old_sector o)) e ∙ length-replicate {A = ℕ} sector_size 0
  | inr e ↦ ap (λ o. length (old_sector o)) e ∙ v 0
]

-- A write of four entries that succeeds, their fields within the widths of their C types, on a drive of whole
-- sectors: a read of the table that follows gives exactly these entries, unless the drive itself fails to read
-- the sector; the bootstrap code is kept, if it could be read before the write, and zero if not; and no other
-- sector changes.
pub mbr_read-mbr_write :
    (drive : ℕ) (parts : List Partition) (a : Ata)
    → IsSectors drive a
    → length parts ≡ mbr_parts
    → All FitsEntry parts
    → (mbr_write drive parts a).0 ≡ true
    → ReadBack drive parts (mbr_write drive parts a).1
      × Updated drive (old_sector (read_old drive a)) a (mbr_write drive parts a).1
unfolding mbr_write mbr_read
mbr_read-mbr_write drive parts a v four fits ok =
    let old = old_sector (read_old drive a) in
    let a1 = (drive_read drive 0 1 a).1 in
    let same : a1.disk ≡ a.disk = (drive_read-cases drive 0 a).0 in
    let long = length-old_sector drive a v in
    let w =
      drive_write-Wrote drive 0 (fill_mbr parts old) a1 (length-fill_mbr parts old four long) ok in
    let a2 = (mbr_write drive parts a).1 in
    (
      elim (drive_read-cases drive 0 a2).1 [
        | inl e ↦ drive_failed e (ap read_then e)
        | inr e ↦
            same_parts e
              (ap read_then e ∙ ap parse_mbr w.there ∙ parse_mbr-fill_mbr parts old four long fits)
      ],
      record {
        bootstrap = ap (take mbr_entry_offset) w.there ∙ take-fill_mbr parts old four long;
        others = λ d k ne. w.others d k ne ∙ ap (λ (disk : ℕ → ℕ → List ℕ). disk d k) same;
      },
    )
  where
    read_then : Option (List ℕ) → Option (List Partition)
    read_then none = none
    read_then (some bytes) = parse_mbr bytes
