-- ===== src/Fs/Store.antt =====
-- What the write loop leaves on the drive.
use stink_os.Base.{
  take-append, ℕ, zero, suc, ◌+◌, ◌-◌, ◌/◌, ◌%◌, ◌^◌, ◌≤◌, ◌<◌, ◌≡◌, inr, refl, sym, ap, ap₂, ◌∙◌,
  subst, ◌++◌, List, [], ◌∷◌, Bool, true, length, get_or, take, drop, replicate, add32, arith,
  dec_lt, length-take, length-drop, length-append, length-replicate, take-append-drop,
}
use stink_os.Fs.{Ata, drive_write}
use stink_os.Fs.Stink.{write_sectors}
use stink_os.Fs.Move.{IsSectors, Wrote, drive_write-Wrote, Wrote-IsSectors, written_then}
use stink_os.Fs.Bytes.{content, content-append, content-sector}

content-shift :
    (disk : ℕ → List ℕ) (start p q n : ℕ)
    → q ≡ 512 + p
    → content disk start q n ≡ content disk (start + 1) p n
unfolding content
content-shift disk start p q zero e = refl
content-shift disk start p q (suc n) e =
    ap₂ (λ x xs. x ∷ xs) (ap₂ (λ s i. get_or (disk s) i 0) next_sector same_offset)
      (content-shift disk start (p + 1) (q + 1) n (omega arith))
  where
    next_sector : start + q / 512 ≡ start + 1 + p / 512
    next_sector = omega arith

    same_offset : q % 512 ≡ p % 512
    same_offset = omega arith

content-nil :
    (disk : ℕ → List ℕ) (start p : ℕ) (xs : List ℕ)
    → length xs ≡ 0
    → content disk start p (length xs) ≡ xs
unfolding content
content-nil disk start p [] e = refl
content-nil disk start p (x ∷ xs) e = absurd (omega arith)

-- The bytes are on the drive from sector `lba` on, and no sector before or behind theirs has changed.
pub record Stored (drive lba : ℕ) (src : List ℕ) (a a' : Ata) : Type 0 where
  pub whole : IsSectors drive a'
  pub bytes : content (a'.disk drive) lba 0 (length src) ≡ src
  pub before : (l : ℕ) → l < lba → a'.disk drive l ≡ a.disk drive l
  pub behind : (l : ℕ) → lba + (length src + 511) / 512 ≤ l → a'.disk drive l ≡ a.disk drive l

abbrev padded : List ℕ → List ℕ
padded src = take 512 src ++ replicate (512 - length (take 512 src)) 0

length-padded : (src : List ℕ) → length (padded src) ≡ 512
length-padded src = omega (
  arith,
  length-append (take 512 src) (replicate (512 - length (take 512 src)) 0),
  length-replicate {A = ℕ} (512 - length (take 512 src)) 0,
  length-take 512 src,
)

Stored-step :
    (drive lba : ℕ) (src : List ℕ) {a a1 a' : Ata}
    → 0 < length src
    → Wrote drive lba (padded src) a a1
    → Stored drive (lba + 1) (drop 512 src) a1 a'
    → Stored drive lba src a a'
Stored-step drive lba src {a} {a1} {a'} some_left w s = record {
  whole = s.whole;
  bytes =
      ap (content (a'.disk drive) lba 0) sum
      ∙ content-append (a'.disk drive) lba 0 n1 n2
      ∙ ap₂ (λ xs ys. xs ++ ys) first second
      ∙ take-append-drop 512 src;
  before = λ l lt. s.before l (omega arith) ∙ w.others drive l (inr (λ e. omega (arith, e)));
  behind = λ l le.
      s.behind l (omega (arith, length-drop 512 src))
      ∙ w.others drive l (inr (λ e. omega (arith, e)));
}
  where
    n1 : ℕ
    n1 = length (take 512 src)

    n2 : ℕ
    n2 = length (drop 512 src)

    sum : length src ≡ n1 + n2
    sum = omega (arith, length-take 512 src, length-drop 512 src)

    there : a'.disk drive (lba + 0 / 512) ≡ padded src
    there = ap (a'.disk drive) at_start ∙ s.before lba (omega arith) ∙ w.there
      where
        at_start : lba + 0 / 512 ≡ lba
        at_start = omega arith

    first : content (a'.disk drive) lba 0 n1 ≡ take 512 src
    first =
        content-sector (a'.disk drive) lba 0 n1 (ap length there ∙ length-padded src)
          (omega (arith, length-take 512 src))
        ∙ ap (take n1) there
        ∙ take-append (take 512 src) _ n1 refl

    second : content (a'.disk drive) lba (0 + n1) n2 ≡ drop 512 src
    second = elim (dec_lt 0 n2) [
      | yes more ↦
          content-shift (a'.disk drive) lba 0 (0 + n1) n2
            (omega (arith, length-take 512 src, length-drop 512 src))
          ∙ s.bytes
      | no last ↦ content-nil (a'.disk drive) lba (0 + n1) (drop 512 src) (omega arith)
    ]

pub write_sectors-Stored :
    (rounds drive lba : ℕ) (src : List ℕ) (a : Ata)
    → IsSectors drive a
    → length src ≤ rounds
    → lba + (length src + 511) / 512 < 2 ^ 32
    → (write_sectors rounds drive lba src a).0 ≡ true
    → Stored drive lba src a (write_sectors rounds drive lba src a).1
unfolding write_sectors content
write_sectors-Stored zero drive lba [] a v le high ok = record {
  whole = v;
  bytes = refl;
  before = λ l lt. refl;
  behind = λ l lt. refl;
}
write_sectors-Stored zero drive lba (c ∷ cs) a v le high ok = absurd (omega arith)
write_sectors-Stored (suc rounds) drive lba [] a v le high ok = record {
  whole = v;
  bytes = refl;
  before = λ l lt. refl;
  behind = λ l lt. refl;
}
write_sectors-Stored (suc rounds) drive lba (c ∷ cs) a v le high ok =
    let (wrote, same) =
      written_then _ (write_sectors rounds drive (add32 lba 1) (drop 512 src) a1) a1 ok in
    let w : Wrote drive lba (padded src) a a1 =
      drive_write-Wrote drive lba (padded src) a (length-padded src) wrote in
    let rest : Stored drive (add32 lba 1) (drop 512 src) a1
        (write_sectors rounds drive (add32 lba 1) (drop 512 src) a1).1 =
      write_sectors-Stored rounds drive (add32 lba 1) (drop 512 src) a1
        (Wrote-IsSectors (length-padded src) v w) (omega (arith, length-drop 512 src))
        (omega (arith, length-drop 512 src, up)) (ap (λ (x : Bool × Ata). x.0) (sym same) ∙ ok) in
    subst (λ (x : Bool × Ata). Stored drive lba src a x.1) (sym same)
      (Stored-step drive lba src (omega arith) w (
        subst
          (λ n.
            Stored drive n (drop 512 src) a1
              (write_sectors rounds drive (add32 lba 1) (drop 512 src) a1).1)
          up rest))
  where
    src : List ℕ
    src = c ∷ cs

    a1 : Ata
    a1 = (drive_write drive lba 1 (padded src) a).1

    up : add32 lba 1 ≡ lba + 1
    up = omega arith
