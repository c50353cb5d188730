-- ===== src/Fs/Move.antt =====
-- `copy_sectors`: the loop that moves sectors down, or to the end, one after the other.
use stink_os.Base.{
  ℕ, zero, suc, ◌+◌, ◌-◌, ◌*◌, ◌^◌, ◌≤◌, ◌<◌, ◌≡◌, ◌≢◌, ◌⊎◌, inl, inr, refl, sym, ap, ◌∙◌, subst,
  append-nil, List, [], ◌∷◌, Option, none, some, Bool, true, false, ◌&&◌, length, take, ltb, leb,
  ◌==◌, if◌then◌else◌, add32, arith, Bool-cases, ℕ_discrete, some_same,
}
use stink_os.Fs.{Ata, sector_size, store, outcome, later, drive_write, drive_read, load}
use stink_os.Fs.Stink.{copy_sectors}

abbrev pub IsSectors : ℕ → Ata → Type 0
IsSectors drive a = (l : ℕ) → length (a.disk drive l) ≡ sector_size

take_all : (xs : List ℕ) (n : ℕ) → length xs ≤ n → take n xs ≡ xs
take_all [] zero le = refl
take_all [] (suc n) le = refl
take_all (x ∷ xs) zero le = absurd (omega arith)
take_all (x ∷ xs) (suc n) le = ap (λ ys. x ∷ ys) (take_all xs n (omega arith))

-- What a command that succeeds does to one sector, and that it leaves the others alone.
pub record Wrote (drive l : ℕ) (sector : List ℕ) (a a' : Ata) : Type 0 where
  pub there : a'.disk drive l ≡ sector
  pub others : (d k : ℕ) → (d ≢ drive) ⊎ (l ≢ k) → a'.disk d k ≡ a.disk d k

store-Wrote :
    (drive l : ℕ) (sector : List ℕ) (a : Ata)
    → length sector ≡ sector_size
    → Wrote drive l sector a
        (record { disk = store drive l 1 sector a.disk; faults = later a.faults })
store-Wrote drive l sector a len = record {
  there = rw (hit, zero_offset) (take_all sector 512 (omega arith));
  others = λ d k ne. rw (missed d k ne) refl;
}
  where
    hit : (drive == drive && (leb l l && ltb l (l + 1))) ≡ true
    hit = ground arith

    zero_offset : (l - l) * sector_size ≡ 0
    zero_offset = omega arith

    missed : (d k : ℕ) → (d ≢ drive) ⊎ (l ≢ k) → (d == drive && (leb l k && ltb k (l + 1))) ≡ false
    missed d k (inl ne) = ground arith
    missed d k (inr ne) = ground arith

outcome-ok : (faults : List (Option ℕ)) → (outcome 1 faults).1 ≡ true → (outcome 1 faults).0 ≡ 1
outcome-ok [] ok = refl
outcome-ok (none ∷ fs) ok = refl
outcome-ok (some k ∷ fs) ok = cc ok

pub drive_write-Wrote :
    (drive l : ℕ) (sector : List ℕ) (a : Ata)
    → length sector ≡ sector_size
    → (drive_write drive l 1 sector a).0 ≡ true
    → Wrote drive l sector a (drive_write drive l 1 sector a).1
unfolding drive_write
drive_write-Wrote drive l sector a len ok =
    rw (outcome-ok a.faults ok) (store-Wrote drive l sector a len)

pub drive_read-cases :
    (drive l : ℕ) (a : Ata)
    → ((drive_read drive l 1 a).1.disk ≡ a.disk)
      × (((drive_read drive l 1 a).0 ≡ none) ⊎ ((drive_read drive l 1 a).0 ≡ some (a.disk drive l)))
unfolding drive_read load
drive_read-cases drive l a = (
  refl,
  elim (Bool-cases (outcome 1 a.faults).1) [
    | inl ok ↦ inr (rw ok (ap (λ (xs : List ℕ). some xs) (append-nil (a.disk drive l))))
    | inr bad ↦ inl (rw bad refl)
  ],
)

-- `left` sectors from `from` on have come to `to` and the sectors behind it, and no other has changed.
pub record Copied (left drive from to : ℕ) (a a' : Ata) : Type 0 where
  pub moved : (k : ℕ) → k < left → a'.disk drive (to + k) ≡ a.disk drive (from + k)
  pub others : (l : ℕ) → (l < to) ⊎ (to + left ≤ l) → a'.disk drive l ≡ a.disk drive l
  pub drives : (d l : ℕ) → d ≢ drive → a'.disk d l ≡ a.disk d l

Copied-step :
    (left drive from to : ℕ) {a a1 a' : Ata}
    → to ≤ from
    → Wrote drive to (a.disk drive from) a a1
    → Copied left drive (from + 1) (to + 1) a1 a'
    → Copied (suc left) drive from to a a'
Copied-step left drive from to {a} {a1} {a'} le w c = record {
  moved = elim [
    | zero ↦ λ h.
        subst (λ n. a'.disk drive n ≡ a.disk drive (from + 0)) start
          (c.others to (inl (omega arith)) ∙ w.there ∙ ap (a.disk drive) start_from)
    | suc k ↦ λ h.
        subst (λ n. a'.disk drive n ≡ a.disk drive (from + suc k)) (shift to k)
          (c.moved k (omega arith)
            ∙ w.others drive (from + 1 + k) (inr (λ e. omega (arith, e)))
            ∙ ap (a.disk drive) (shift from k))
  ];
  others = λ l out.
      c.others l (omega (arith, out)) ∙ w.others drive l (inr (λ e. omega (arith, e, out)));
  drives = λ d l ne. c.drives d l ne ∙ w.others d l (inl ne);
}
  where
    start : to ≡ to + 0
    start = omega arith

    start_from : from ≡ from + 0
    start_from = omega arith

    shift : (n k : ℕ) → n + 1 + k ≡ n + suc k
    shift n k = omega arith

pub Wrote-IsSectors :
    {drive l : ℕ} {sector : List ℕ} {a a' : Ata}
    → length sector ≡ sector_size
    → IsSectors drive a
    → Wrote drive l sector a a'
    → IsSectors drive a'
Wrote-IsSectors {drive} {l} {a' = a'} len v w k = elim (ℕ_discrete l k) [
  | yes e ↦ subst (λ n. length (a'.disk drive n) ≡ sector_size) e (ap length w.there ∙ len)
  | no ne ↦ ap length (w.others drive k (inr ne)) ∙ v k
]

Copied-none : (drive from to : ℕ) (a : Ata) → Copied zero drive from to a a
Copied-none drive from to a = record {
  moved = λ k h. absurd (omega arith);
  others = λ l out. refl;
  drives = λ d l ne. refl;
}

-- A chain that succeeds has read its sector and written it.
pub read_then :
    (r : Option (List ℕ)) (sector : List ℕ) (next : List ℕ → Bool × Ata) (fail : Ata)
    → (r ≡ none) ⊎ (r ≡ some sector)
    → (elim r as (λ x. Bool × Ata) [ none ↦ (false, fail) | some s ↦ next s ]).0 ≡ true
    → elim r as (λ x. Bool × Ata) [ none ↦ (false, fail) | some s ↦ next s ] ≡ next sector
read_then none sector next fail c ok = cc ok
read_then (some s) sector next fail (inl e) ok = cc e
read_then (some s) sector next fail (inr e) ok = ap next (some_same e)

pub written_then :
    (b : Bool) (rest : Bool × Ata) (fail : Ata)
    → ◌≡◌ {A = Bool} (if b then rest else (false, fail)).0 true
    → (b ≡ true) × ((if b then rest else (false, fail)) ≡ rest)
written_then true rest fail ok = (refl, refl)
written_then false rest fail ok = cc ok

-- If no command fails, `copy_sectors` moves the sectors down, or leaves them where they are, even
-- where the two ranges overlap.
pub copy_sectors-Copied :
    (left drive from to : ℕ) (a : Ata)
    → to ≤ from
    → from + left < 2 ^ 32
    → IsSectors drive a
    → (copy_sectors left drive from to a).0 ≡ true
    → Copied left drive from to a (copy_sectors left drive from to a).1
      × IsSectors drive (copy_sectors left drive from to a).1
unfolding copy_sectors
copy_sectors-Copied zero drive from to a le small v ok = (Copied-none drive from to a, v)
copy_sectors-Copied (suc left) drive from to a le small v ok =
    let again : (b : Ata)
        → add32 to 1 ≤ add32 from 1
        → add32 from 1 + left < 2 ^ 32
        → IsSectors drive b
        → (copy_sectors left drive (add32 from 1) (add32 to 1) b).0 ≡ true
        → Copied left drive (add32 from 1) (add32 to 1) b
            (copy_sectors left drive (add32 from 1) (add32 to 1) b).1
          × IsSectors drive (copy_sectors left drive (add32 from 1) (add32 to 1) b).1 =
      λ b p q s t. copy_sectors-Copied left drive (add32 from 1) (add32 to 1) b p q s t in
    subst After (sym read) (
      subst After (sym (written.1))
        (Copied-step left drive from to le w (rest again).0, (rest again).1))
  where
    After : Bool × Ata → Type 0
    After x = Copied (suc left) drive from to a x.1 × IsSectors drive x.1

    a1 : Ata
    a1 = (drive_read drive from 1 a).1

    a2 : Ata
    a2 = (drive_write drive to 1 (a.disk drive from) a1).1

    next : List ℕ → Bool × Ata
    next sector =
        let (done, a'') = drive_write drive to 1 sector a1 in
        let more = copy_sectors left drive (add32 from 1) (add32 to 1) a'' in
        if done then more else (false, a'')

    read : copy_sectors (suc left) drive from to a ≡ next (a.disk drive from)
    read = read_then _ (a.disk drive from) next a1 (drive_read-cases drive from a).1 ok

    more : Bool × Ata
    more = copy_sectors left drive (add32 from 1) (add32 to 1) a2

    written :
        ((drive_write drive to 1 (a.disk drive from) a1).0 ≡ true)
        × (next (a.disk drive from) ≡ more)
    written = written_then _ more a2 (ap (λ (x : Bool × Ata). x.0) (sym read) ∙ ok)

    w1 : Wrote drive to (a.disk drive from) a1 a2
    w1 = drive_write-Wrote drive to (a.disk drive from) a1 (v from) written.0

    w : Wrote drive to (a.disk drive from) a a2
    w = record {
      there = w1.there;
      others = λ d k ne.
          w1.others d k ne
          ∙ ap (λ (disk : ℕ → ℕ → List ℕ). disk d k) (drive_read-cases drive from a).0;
    }

    up : (n : ℕ) → n ≤ from → add32 n 1 ≡ n + 1
    up n h = omega arith

    rest :
        ((b : Ata)
          → add32 to 1 ≤ add32 from 1
          → add32 from 1 + left < 2 ^ 32
          → IsSectors drive b
          → (copy_sectors left drive (add32 from 1) (add32 to 1) b).0 ≡ true
          → Copied left drive
              (add32 from 1)
              (add32 to 1)
              b
              (copy_sectors left drive (add32 from 1) (add32 to 1) b).1
            × IsSectors drive (copy_sectors left drive (add32 from 1) (add32 to 1) b).1)
        → Copied left drive (from + 1) (to + 1) a2 more.1 × IsSectors drive more.1
    rest again =
        subst (λ n. Copied left drive n (to + 1) a2 more.1 × IsSectors drive more.1)
          (up from (omega arith))
          (subst (λ n. Copied left drive (add32 from 1) n a2 more.1 × IsSectors drive more.1)
            (up to le)
            (again a2 (omega (arith, up from (omega arith), up to le))
              (omega (arith, up from (omega arith))) (Wrote-IsSectors (v from) v w)
              (ap (λ (x : Bool × Ata). x.0) (sym written.1 ∙ sym read) ∙ ok)))
