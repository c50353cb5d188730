-- ===== src/Fs/Roundtrip.antt =====
-- A file of kernel/fs/fs.c written and read back.
use stink_os.Base.{
  take-append, drop-append, ℕ, zero, suc, ◌+◌, ◌-◌, ◌/◌, ◌%◌, ◌^◌, ◌≤◌, ◌<◌, ◌≡◌, ◌⊎◌, inl, inr,
  refl, sym, ap, ap₂, ◌∙◌, subst, ◌++◌, List, [], ◌∷◌, Option, some, Bool, true, false, length,
  get_or, set, take, drop, leb, if◌then◌else◌, min, arith, Bool-cases, get_or-set_self,
  get_or-set_ne, some_same, dec_lt,
}
use stink_os.Fs.{Ata, File, Dir, Mount, file, no_file, put_file, fs_dir_sectors, fs_max_files}
use stink_os.Fs.Stink.{
  need_sectors, write_sectors, write_placed, save_if, stinkfs_dir_save, stinkfs_file_write,
  stinkfs_find, read_file, read_bytes, stinkfs_file_read_at,
}
use stink_os.Fs.Extents.{IsValid}
use stink_os.Fs.Names.{find-bound, stinkfs_find-Lookup}
use stink_os.Fs.Write.{stinkfs_file_write-IsValid, saved_same}
use stink_os.Fs.Move.{IsSectors}
use stink_os.Fs.Kept.{dir_save_keeps}
use stink_os.Fs.Bytes.{content, content-append, read_bytes-content, SectorsFrom}
use stink_os.Fs.Store.{Stored, write_sectors-Stored}
use stink_os.Fs.Found.{NamedCase, no_place, named, place-NamedCase, named-found}

length-content : (disk : ℕ → List ℕ) (start p n : ℕ) → length (content disk start p n) ≡ n
unfolding content
length-content disk start p zero = refl
length-content disk start p (suc n) = ap suc (length-content disk start (p + 1) n)

content-same :
    (disk disk' : ℕ → List ℕ) (start p n : ℕ)
    → ((l : ℕ) → start ≤ l → disk' l ≡ disk l)
    → content disk' start p n ≡ content disk start p n
unfolding content
content-same disk disk' start p zero same = refl
content-same disk disk' start p (suc n) same =
    ap₂ (λ s xs. get_or s (p % 512) 0 ∷ xs) (same (start + p / 512) (omega arith))
      (content-same disk disk' start (p + 1) n same)

-- A part of a file is that part of its bytes.
content-part :
    (disk : ℕ → List ℕ) (start offset n : ℕ) (bytes : List ℕ)
    → content disk start 0 (length bytes) ≡ bytes
    → offset + n ≤ length bytes
    → content disk start offset n ≡ take n (drop offset bytes)
content-part disk start offset n bytes e le =
    sym (take-append (content disk start offset n) _ n (length-content disk start offset n))
    ∙ ap (take n) (
        sym (content-append disk start offset n rest)
        ∙ sym (
            drop-append (content disk start 0 offset) _ offset (length-content disk start 0 offset))
        ∙ ap (drop offset) (sym from_start ∙ ap (content disk start 0) sum ∙ e))
  where
    rest : ℕ
    rest = length bytes - offset - n

    sum : offset + (n + rest) ≡ length bytes
    sum = omega arith

    at_offset : 0 + offset ≡ offset
    at_offset = omega arith

    from_start :
        content disk start 0 (offset + (n + rest))
        ≡ content disk start 0 offset ++ content disk start offset (n + rest)
    from_start =
        content-append disk start 0 offset (n + rest)
        ∙ ap (λ p. content disk start 0 offset ++ content disk start p (n + rest)) at_offset

-- A file whose bytes are on the drive: entry `i` is found for the name, and its sectors hold them.
record Holds (name : List ℕ) (i : ℕ) (bytes : List ℕ) (m : Mount) (a : Ata) : Type 0 where
  found : stinkfs_find m.dir name ≡ some i
  size : (file m.dir i).size ≡ length bytes
  whole : SectorsFrom (file m.dir i).start m.drive a
  bytes_there : content (a.disk m.drive) (file m.dir i).start 0 (length bytes) ≡ bytes
  end : 0 < length bytes → (file m.dir i).start + (length bytes + 511) / 512 < 2 ^ 32

read_file-Holds :
    (name : List ℕ) (i : ℕ) (bytes : List ℕ) (maxsize offset : ℕ) (m : Mount) (a : Ata)
    (out : List ℕ)
    → Holds name i bytes m a
    → length bytes + 512 < 2 ^ 32
    → (read_file (some i) maxsize offset m a).0 ≡ some out
    → out ≡ take (min (length bytes - offset) maxsize) (drop offset bytes)
unfolding read_file
read_file-Holds name i bytes maxsize offset m a out h small e =
    elim (Bool-cases (leb (file m.dir i).size offset)) [
      | inl past ↦
          sym (some_same (chosen _ past e)) ∙ ap (λ k. take k (drop offset bytes)) (nothing past)
      | inr inside ↦
          read_bytes-content n m.drive (file m.dir i).start offset n a out h.whole (omega arith)
            (omega (arith, h.size, within inside))
            (omega (arith, h.size, within inside, h.end (omega (arith, within inside))))
            (chosen _ inside e)
          ∙ content-part (a.disk m.drive) (file m.dir i).start offset n bytes h.bytes_there
              (within inside).1
          ∙ ap (λ k. take (min (k - offset) maxsize) (drop offset bytes)) h.size
    ]
  where
    n : ℕ
    n = min ((file m.dir i).size - offset) maxsize

    chosen :
        {b : Bool} (test : Bool)
        → test ≡ b
        → (if◌then◌else◌ {A = Option (List ℕ) × Ata} test
            (some [], a)
            (read_bytes n m.drive (file m.dir i).start offset n a)).0
          ≡ some out
        → (if◌then◌else◌ {A = Option (List ℕ) × Ata} b
            (some [], a)
            (read_bytes n m.drive (file m.dir i).start offset n a)).0
          ≡ some out
    chosen test q =
        subst
          (λ c.
            (if◌then◌else◌ {A = Option (List ℕ) × Ata} c (some [], a)
              (read_bytes n m.drive (file m.dir i).start offset n a)).0
            ≡ some out)
          q

    nothing : leb (file m.dir i).size offset ≡ true → 0 ≡ min (length bytes - offset) maxsize
    nothing q = ground (arith, h.size)

    within :
        leb (file m.dir i).size offset ≡ false
        → (offset < length bytes) × (offset + n ≤ length bytes)
    within q = ground (arith, h.size)

-- The entry that is written, once its sectors and the directory are on the drive.
saved-Holds :
    (name bytes : List ℕ) (m : Mount) (i : ℕ) (a a' : Ata)
    → IsValid m
    → m.dir_lba + fs_dir_sectors ≤ m.data_lba
    → length bytes + 512 < 2 ^ 32
    → i < m.dir.count
    → (file m.dir i).size ≡ length bytes
    → stinkfs_find m.dir name ≡ some i
    → Stored m.drive (file m.dir i).start bytes a a'
    → (0 < length bytes ⊎ bytes ≡ [])
    → Holds name i bytes m (stinkfs_dir_save m a').2 ⊎ bytes ≡ []
saved-Holds name bytes m i a a' v apart small lt size found s (inr e) = inr e
saved-Holds name bytes m i a a' v apart small lt size found s (inl more) = inl (record {
  found = found;
  size = size;
  whole = λ l lo. ap length (dir_save_keeps m a' l (omega (arith, behind))) ∙ s.whole l;
  bytes_there =
      content-same (a'.disk m.drive) _ start 0 (length bytes)
        (λ l lo. dir_save_keeps m a' l (omega (arith, behind)))
      ∙ s.bytes;
  end = λ h. omega (arith, (v.placed i lt).to_high some_sectors, v.high, v.no_wrap, size);
})
  where
    start : ℕ
    start = (file m.dir i).start

    some_sectors : 0 < need_sectors (file m.dir i).size
    some_sectors = omega (arith, size)

    behind : m.data_lba ≤ start
    behind = (v.placed i lt).from_low some_sectors

saved_write :
    (m : Mount) (c : Bool × Ata)
    → (save_if c.0 m c.1).0 ≡ true
    → (c.0 ≡ true) × (save_if c.0 m c.1 ≡ stinkfs_dir_save m c.1)
unfolding save_if
saved_write m (true, a) ok = (refl, refl)
saved_write m (false, a) ok = cc ok

-- What is known once a write of `bytes` has succeeded: the bytes are held, or there are none.
Written : List ℕ → List ℕ → Bool × Mount × Ata → Type 0
Written name bytes out =
    (i : ℕ) × (stinkfs_find out.1.dir name ≡ some i)
    × ((file out.1.dir i).size ≡ length bytes)
    × (Holds name i bytes out.1 out.2 ⊎ bytes ≡ [])

named-Written :
    (name bytes : List ℕ) (m : Mount) (a : Ata) (i : ℕ) (d : Dir)
    → IsSectors m.drive a
    → m.dir_lba + fs_dir_sectors ≤ m.data_lba
    → length bytes + 512 < 2 ^ 32
    → i < d.count
    → IsValid (write_placed (some i) bytes (record m { dir = d }) a).1
    → length d.files ≡ fs_max_files
    → stinkfs_find (put_file i (record (file d i) { size = length bytes }) d) name ≡ some i
    → (write_placed (some i) bytes (record m { dir = d }) a).0 ≡ true
    → Written name bytes (write_placed (some i) bytes (record m { dir = d }) a)
unfolding write_placed Written stinkfs_dir_save
named-Written name bytes m a i d sectors apart small lt v len found ok =
    let (wrote, same) = saved_write m' c ok in
    let v' : IsValid m' = subst (λ (x : Bool × Mount × Ata). IsValid x.1) same v in
    let there : file m'.dir i ≡ record (file d i) { size = length bytes } =
      get_or-set_self d.files i _ no_file (omega (arith, len, v'.counted)) in
    let start_same : (file m'.dir i).start ≡ (file d i).start = ap (λ (f : File). f.start) there in
    let size_same : (file m'.dir i).size ≡ length bytes = ap (λ (f : File). f.size) there in
    subst (Written name bytes) (sym same) (
      i,
      found,
      size_same,
      elim (dec_lt 0 (length bytes)) [
        | yes more ↦
            saved-Holds name bytes m' i a c.1 v' apart small lt size_same found
              (subst (λ n. Stored m.drive n bytes a c.1) (sym start_same)
                (stored v' start_same size_same more wrote))
              (inl more)
        | no none_left ↦ inr (no_bytes bytes (omega arith))
      ],
    )
  where
    m' : Mount
    m' = record m { dir = put_file i (record (file d i) { size = length bytes }) d }

    c : Bool × Ata
    c = write_sectors (length bytes) m.drive (file d i).start bytes a

    stored :
        IsValid m'
        → (file m'.dir i).start ≡ (file d i).start
        → (file m'.dir i).size ≡ length bytes
        → 0 < length bytes
        → c.0 ≡ true
        → Stored m.drive (file d i).start bytes a c.1
    stored v' start_same size_same more wrote =
        write_sectors-Stored (length bytes) m.drive (file d i).start bytes a sectors (omega arith)
          (omega (
            arith,
            (v'.placed i lt).to_high (omega (arith, size_same)),
            v'.high,
            v'.no_wrap,
            start_same,
            size_same,
          ))
          wrote

    no_bytes : (xs : List ℕ) → length xs ≡ 0 → xs ≡ []
    no_bytes [] e = refl
    no_bytes (x ∷ xs) e = absurd (omega arith)

NamedCase-Written :
    (name bytes : List ℕ) (m : Mount) (a : Ata) (r : Option ℕ × Dir)
    → IsValid m
    → IsSectors m.drive a
    → m.dir_lba + fs_dir_sectors ≤ m.data_lba
    → length bytes + 512 < 2 ^ 32
    → NamedCase (stinkfs_find m.dir name) name m.dir r
    → IsValid (write_placed r.0 bytes (record m { dir = r.1 }) a).1
    → (write_placed r.0 bytes (record m { dir = r.1 }) a).0 ≡ true
    → Written name bytes (write_placed r.0 bytes (record m { dir = r.1 }) a)
unfolding write_placed
NamedCase-Written name bytes m a r v sectors apart small (no_place d) v' ok = cc ok
NamedCase-Written name bytes m a r v sectors apart small (named i d lt len before at) v' ok =
    named-Written name bytes m a i d sectors apart small lt v' (len ∙ v.slots)
      (named-found i _ name m.dir (put_file i (record (file d i) { size = length bytes }) d)
        (stinkfs_find-Lookup m.dir name) lt
        (λ j below.
          ap (λ (f : File). f.name)
            (get_or-set_ne d.files i j _ no_file (λ e. omega (arith, e, below)))
          ∙ before j below)
        (elim at [ inl (q, n) ↦ inl (q, there ∙ n) | inr (q, k, n) ↦ inr (q, k, there ∙ n) ]))
      ok
  where
    counted : d.count ≤ fs_max_files
    counted = subst (λ (x : Mount). x.dir.count ≤ fs_max_files) (saved_same _ _ _) v'.counted

    there :
        (get_or
          (set d.files i (record (get_or d.files i no_file) { size = length bytes }))
          i
          no_file).name
        ≡ (get_or d.files i no_file).name
    there =
        ap (λ (f : File). f.name)
          (get_or-set_self d.files i _ no_file (omega (arith, len, v.slots, counted)))

read_file-empty :
    (i maxsize offset : ℕ) (m : Mount) (a : Ata) (out : List ℕ)
    → (file m.dir i).size ≡ 0
    → (read_file (some i) maxsize offset m a).0 ≡ some out
    → out ≡ []
unfolding read_file
read_file-empty i maxsize offset m a out z e = sym (some_same (chosen e))
  where
    n : ℕ
    n = min ((file m.dir i).size - offset) maxsize

    empty : leb (file m.dir i).size offset ≡ true
    empty = ground arith

    chosen :
        (if◌then◌else◌ {A = Option (List ℕ) × Ata}
            (leb (file m.dir i).size offset)
            (some [], a)
            (read_bytes n m.drive (file m.dir i).start offset n a)).0
          ≡ some out
        → ◌≡◌ {A = Option (List ℕ)} (some []) (some out)
    chosen =
        subst
          (λ c.
            (if◌then◌else◌ {A = Option (List ℕ) × Ata} c (some [], a)
              (read_bytes n m.drive (file m.dir i).start offset n a)).0
            ≡ some out)
          empty

read-Written :
    (name bytes : List ℕ) (maxsize offset : ℕ) (faults : List (Option ℕ)) (out : List ℕ)
    (x : Bool × Mount × Ata)
    → length bytes + 512 < 2 ^ 32
    → Written name bytes x
    → (read_file
        (stinkfs_find x.1.dir name)
        maxsize
        offset
        x.1
        (record (x.2) { faults = faults })).0
      ≡ some out
    → out ≡ take (min (length bytes - offset) maxsize) (drop offset bytes)
unfolding Written
read-Written name bytes maxsize offset faults out x small (i, found, size, inl h) e =
    read_file-Holds name i bytes maxsize offset x.1 (record (x.2) { faults = faults }) out
      (record {
        found = h'.found;
        size = h'.size;
        whole = h'.whole;
        bytes_there = h'.bytes_there;
        end = h'.end;
      })
      small
      (subst (λ o. (read_file o maxsize offset x.1 (record (x.2) { faults = faults })).0 ≡ some out)
        found e)
  where
    h' : Holds name i bytes x.1 x.2
    h' = h
read-Written name bytes maxsize offset faults out x small (i, found, size, inr nothing) e =
    read_file-empty i maxsize offset x.1 (record (x.2) { faults = faults }) out
      (size ∙ ap length nothing)
      (subst (λ o. (read_file o maxsize offset x.1 (record (x.2) { faults = faults })).0 ≡ some out)
        found e)
    ∙ ap (λ n. take n (drop offset bytes)) none_asked
  where
    none_asked : 0 ≡ min (length bytes - offset) maxsize
    none_asked = omega (arith, ap length nothing)

-- Reading back. In a valid volume on whole sectors, whose directory lies before its data, after a write
-- of `bytes` to a name that succeeded, a read of that name at any offset, on a drive that may fail in
-- any way from then on, gives either an error or exactly the bytes from the offset on, as many as there
-- are and were asked for, whether the file existed before or not.
pub stinkfs_file_read_at-file_write :
    (name bytes : List ℕ) (maxsize offset : ℕ) (faults : List (Option ℕ)) (out : List ℕ) (m : Mount)
    (a : Ata)
    → IsValid m
    → IsSectors m.drive a
    → m.dir_lba + fs_dir_sectors ≤ m.data_lba
    → length bytes + 512 < 2 ^ 32
    → (stinkfs_file_write name bytes m a).0 ≡ true
    → let (ok, m', a') = stinkfs_file_write name bytes m a in
      (stinkfs_file_read_at name maxsize offset m' (record a' { faults = faults })).0 ≡ some out
      → out ≡ take (min (length bytes - offset) maxsize) (drop offset bytes)
unfolding stinkfs_file_read_at stinkfs_file_write
stinkfs_file_read_at-file_write name bytes maxsize offset faults out m a v sectors apart small ok
      e =
    read-Written name bytes maxsize offset faults out (stinkfs_file_write name bytes m a) small
      (NamedCase-Written name bytes m a _ v sectors apart small
        (place-NamedCase (stinkfs_find m.dir name) (need_sectors (length bytes)) m.data_end name
          m.dir (λ i q. find-bound m.dir name i q) v.counted v.slots)
        (stinkfs_file_write-IsValid name bytes a v) ok)
      e
