-- ===== src/Fs/Bytes.antt =====
-- The bytes of a file as they lie on the drive, and what the read loop makes of them.
use stink_os.Base.{
  ℕ, zero, suc, ◌+◌, ◌-◌, ◌/◌, ◌%◌, ◌^◌, ◌≤◌, ◌<◌, ◌≡◌, ◌⊎◌, inl, inr, refl, sym, ap, ap₂, ◌∙◌,
  ◌++◌, List, [], ◌∷◌, Option, none, some, length, get_or, take, drop, add32, min, arith, some_same,
}
use stink_os.Fs.{Ata, sector_size, drive_read}
use stink_os.Fs.Stink.{read_bytes}
use stink_os.Fs.Move.{drive_read-cases}

-- Byte `p` of a file that starts at sector `start`, and `n` bytes from byte `p` on.
abbrev pub byte_at : (ℕ → List ℕ) → ℕ → ℕ → ℕ
byte_at disk start p = get_or (disk (start + p / 512)) (p % 512) 0

unfoldable pub content : (ℕ → List ℕ) → ℕ → ℕ → ℕ → List ℕ
content disk start p zero = []
content disk start p (suc n) = byte_at disk start p ∷ content disk start (p + 1) n

pub content-append :
    (disk : ℕ → List ℕ) (start p n k : ℕ)
    → content disk start p (n + k) ≡ content disk start p n ++ content disk start (p + n) k
unfolding content
content-append disk start p zero k = ap₂ (λ a b. content disk start a b) (omega arith) (omega arith)
content-append disk start p (suc n) k =
    ap (content disk start p) shift
    ∙ ap (λ xs. byte_at disk start p ∷ xs)
        (content-append disk start (p + 1) n k
          ∙ ap (λ m. content disk start (p + 1) n ++ content disk start m k) moved_on)
  where
    shift : suc n + k ≡ suc (n + k)
    shift = omega arith

    moved_on : p + 1 + n ≡ p + suc n
    moved_on = omega arith

take-drop_cons :
    (xs : List ℕ) (i n : ℕ)
    → i < length xs
    → take (suc n) (drop i xs) ≡ get_or xs i 0 ∷ take n (drop (suc i) xs)
take-drop_cons [] i n lt = absurd (omega arith)
take-drop_cons (x ∷ xs) zero n lt = refl
take-drop_cons (x ∷ xs) (suc i) n lt = take-drop_cons xs i n (omega arith)

-- The part of one sector.
pub content-sector :
    (disk : ℕ → List ℕ) (start p n : ℕ)
    → length (disk (start + p / 512)) ≡ 512
    → p % 512 + n ≤ 512
    → content disk start p n ≡ take n (drop (p % 512) (disk (start + p / 512)))
unfolding content
content-sector disk start p zero len le = refl
content-sector disk start p (suc zero) len le =
    sym (take-drop_cons (disk (start + p / 512)) (p % 512) zero (omega arith))
content-sector disk start p (suc (suc n)) len le =
    ap (λ xs. byte_at disk start p ∷ xs)
      (content-sector disk start (p + 1) (suc n) (rw same_sector len) (omega (arith, next_offset))
        ∙ ap₂ (λ i s. take (suc n) (drop i (disk (start + s)))) next_offset same_sector)
    ∙ sym (take-drop_cons (disk (start + p / 512)) (p % 512) (suc n) (omega arith))
  where
    next_offset : (p + 1) % 512 ≡ suc (p % 512)
    next_offset = omega arith

    same_sector : (p + 1) / 512 ≡ p / 512
    same_sector = omega arith

-- A round that returns bytes has read its sector, and the later rounds have returned the rest.
joined :
    (r : Option (List ℕ)) (sector : List ℕ) (rest : Option (List ℕ) × Ata) (fail : Ata)
    (part : List ℕ → List ℕ) (out : List ℕ)
    → (r ≡ none) ⊎ (r ≡ some sector)
    → (elim r as (λ x. Option (List ℕ) × Ata) [
      | none ↦ (none, fail)
      | some s ↦ elim rest.0 as (λ x. Option (List ℕ) × Ata) [
        | none ↦ (none, rest.1)
        | some more ↦ (some (part s ++ more), rest.1)
      ]
    ]).0
      ≡ some out
    → (more : List ℕ) × (rest.0 ≡ some more) × (out ≡ part sector ++ more)
joined none sector rest fail part out c e = cc e
joined (some s) sector rest fail part out (inl c) e = cc c
joined (some s) sector (none, a) fail part out (inr c) e = cc e
joined (some s) sector (some more, a) fail part out (inr c) e =
    (more, refl, sym (some_same e) ∙ ap (λ x. part x ++ more) (some_same c))

-- The sectors from `lo` on are whole.
abbrev pub SectorsFrom : ℕ → ℕ → Ata → Type 0
SectorsFrom lo drive a = (l : ℕ) → lo ≤ l → length (a.disk drive l) ≡ sector_size

-- If the read loop returns bytes, it has enough rounds, and sector and byte numbers do not wrap, they
-- are the bytes of the file from byte `at` on, as many as were asked for.
pub read_bytes-content :
    (rounds drive start at remaining : ℕ) (a : Ata) (out : List ℕ)
    → SectorsFrom start drive a
    → remaining ≤ rounds
    → at + remaining + 512 < 2 ^ 32
    → start + (at + remaining) / 512 < 2 ^ 32
    → (read_bytes rounds drive start at remaining a).0 ≡ some out
    → out ≡ content (a.disk drive) start at remaining
unfolding read_bytes content
read_bytes-content zero drive start at zero a out v le small high e = sym (some_same e)
read_bytes-content zero drive start at (suc more) a out v le small high e = absurd (omega arith)
read_bytes-content (suc rounds) drive start at zero a out v le small high e = sym (some_same e)
read_bytes-content (suc rounds) drive start at (suc more) a out v le small high e =
    let (tail, got, whole) =
      joined _ sector _ _ (λ s. take chunk (drop (at % 512) s)) out (drive_read-cases drive sec a).1
        e in
    let last : tail ≡ content (a'.disk drive) start (add32 at chunk) (suc more - chunk) =
      read_bytes-content rounds drive start (add32 at chunk) (suc more - chunk) a' tail v'
        (omega arith) (omega (arith, exact)) (rw (exact, same_end) high) got in
    whole
    ∙ ap₂ (λ xs ys. xs ++ ys) (sym here)
        (last ∙ ap₂ (λ disk p. content disk start p (suc more - chunk)) same exact)
    ∙ sym (content-append (a.disk drive) start at chunk (suc more - chunk))
    ∙ ap (content (a.disk drive) start at) sum
  where
    chunk : ℕ
    chunk = min (512 - at % 512) (suc more)

    sec : ℕ
    sec = add32 start (at / 512)

    sector : List ℕ
    sector = a.disk drive sec

    a' : Ata
    a' = (drive_read drive sec 1 a).1

    same : a'.disk drive ≡ a.disk drive
    same = ap (λ (disk : ℕ → ℕ → List ℕ). disk drive) (drive_read-cases drive sec a).0

    v' : SectorsFrom start drive a'
    v' l lo = ap (λ (disk : ℕ → List ℕ). length (disk l)) same ∙ v l lo

    exact : add32 at chunk ≡ at + chunk
    exact = omega arith

    same_end : at + chunk + (suc more - chunk) ≡ at + suc more
    same_end = omega arith

    sum : chunk + (suc more - chunk) ≡ suc more
    sum = omega arith

    sec_exact : sec ≡ start + at / 512
    sec_exact = omega arith

    here : content (a.disk drive) start at chunk ≡ take chunk (drop (at % 512) sector)
    here =
        content-sector (a.disk drive) start at chunk (v _ (omega arith)) (omega arith)
        ∙ ap (λ s. take chunk (drop (at % 512) (a.disk drive s))) (sym sec_exact)
