-- ===== src/Fs/Found.antt =====
-- The entry that a write of kernel/fs/fs.c uses, and a later search for its name.
use stink_os.Base.{
  ℕ, zero, suc, ◌+◌, ◌≤◌, ◌<◌, ◌≡◌, ◌≢◌, ◌⊎◌, inl, inr, refl, sym, ap, ◌∙◌, List, Option, none,
  some, true, false, length, get_or, ltb, leb, add32, arith, Bool-cases, get_or-set_self,
  get_or-set_ne, length-set, some_same, ℕ_discrete, dec_lt,
}
use stink_os.Fs.{File, Dir, file, no_file, fs_max_files, copy16, name_eq, name_eq_from}
use stink_os.Fs.Stink.{place, place_again, new_entry, need_sectors, stinkfs_find}
use stink_os.Fs.Names.{Lookup, hit, miss, stinkfs_find-Lookup}

get_or-copy16 :
    (left i k : ℕ) (name : List ℕ)
    → k < left
    → get_or (copy16 left i name) k 0 ≡ get_or name (i + k) 0
unfolding copy16
get_or-copy16 zero i k name lt = absurd (omega arith)
get_or-copy16 (suc left) i zero name lt = ap (λ n. get_or name n 0) (omega arith)
get_or-copy16 (suc left) i (suc k) name lt =
    get_or-copy16 left (i + 1) k name (omega arith) ∙ ap (λ n. get_or name n 0) shift
  where
    shift : i + 1 + k ≡ i + suc k
    shift = omega arith

name_eq_from-same :
    (left i : ℕ) (a b : List ℕ)
    → ((k : ℕ) → k < i + left → get_or a k 0 ≡ get_or b k 0)
    → name_eq_from left i a b ≡ true
unfolding name_eq_from
name_eq_from-same zero i a b same = refl
name_eq_from-same (suc left) i a b same =
    ground (
      arith,
      same i (omega arith),
      name_eq_from-same left (i + 1) a b (λ k lt. same k (omega arith)),
    )

name_eq-copy16 : (name : List ℕ) → name_eq (copy16 16 0 name) name ≡ true
unfolding name_eq
name_eq-copy16 name =
    name_eq_from-same 16 0 (copy16 16 0 name) name
      (λ k lt. get_or-copy16 16 0 k name (omega arith) ∙ ap (λ n. get_or name n 0) (omega arith))

Lookup-unique :
    {d : Dir} {name : List ℕ} {k left : ℕ} {r r' : Option ℕ}
    → Lookup d name k left r
    → Lookup d name k left r'
    → r ≡ r'
Lookup-unique {d} {name} (hit i lo hi e below) (hit j lo' hi' e' below') =
    ap (λ (n : ℕ). some n) same
  where
    same : i ≡ j
    same = elim (ℕ_discrete i j) [
      | yes q ↦ q
      | no ne ↦ elim (dec_lt i j) [
        | yes lt ↦ absurd (true_ne_false (sym e ∙ below' i lo lt))
        | no ge ↦ absurd (true_ne_false (sym e' ∙ below j lo' (omega arith)))
      ]
    ]
      where
        true_ne_false : true ≢ false
        true_ne_false q = cc q
Lookup-unique (hit i lo hi e below) (miss all) = absurd (apart (sym e ∙ all i lo hi))
  where
    apart : true ≢ false
    apart q = cc q
Lookup-unique (miss all) (hit i lo hi e below) = absurd (apart (sym e ∙ all i lo hi))
  where
    apart : true ≢ false
    apart q = cc q
Lookup-unique (miss all) (miss all') = refl

-- The entry that was chosen: an old one, with its name, or a new one behind them, with the name asked
-- for; the entries before it have their names.
pub data NamedCase (o : Option ℕ) (name : List ℕ) (d : Dir) : Option ℕ × Dir → Type 0 where
  no_place : (d' : Dir) → NamedCase o name d (none, d')
  named :
      (i : ℕ) (d' : Dir)
      → i < d'.count
      → length d'.files ≡ length d.files
      → ((j : ℕ) → j < i → (file d' j).name ≡ (file d j).name)
      → (o ≡ some i × ((file d' i).name ≡ (file d i).name))
        ⊎ (o ≡ none × (i ≡ d.count) × ((file d' i).name ≡ copy16 16 0 name))
      → NamedCase o name d (some i, d')

again-NamedCase :
    (i need : ℕ) (name : List ℕ) (d : Dir)
    → i < d.count
    → d.count ≤ length d.files
    → NamedCase (some i) name d (place_again i need d)
again-NamedCase i need name d lt le =
    named i _ lt (length-set d.files i _)
      (λ j below.
        ap (λ (f : File). f.name)
          (get_or-set_ne d.files i j _ no_file (λ e. omega (arith, e, below))))
      (inl (refl, ap (λ (f : File). f.name) (get_or-set_self d.files i _ no_file (omega arith))))

new-NamedCase :
    (need : ℕ) (name : List ℕ) (d : Dir)
    → d.count < length d.files
    → NamedCase none name d (new_entry need name d)
new-NamedCase need name d lt =
    named d.count _ (omega arith) (length-set d.files d.count _)
      (λ j below.
        ap (λ (f : File). f.name)
          (get_or-set_ne d.files d.count j _ no_file (λ e. omega (arith, e, below))))
      (inr (refl, refl, ap (λ (f : File). f.name) (get_or-set_self d.files d.count _ no_file lt)))

pub place-NamedCase :
    (o : Option ℕ) (need data_end : ℕ) (name : List ℕ) (d : Dir)
    → ((i : ℕ) → o ≡ some i → i < d.count)
    → d.count ≤ fs_max_files
    → length d.files ≡ fs_max_files
    → NamedCase o name d (place o need data_end name d)
unfolding place
place-NamedCase none need data_end name d lt le len =
    elim (Bool-cases (ltb data_end (add32 d.next_free need))) [
      | inl no_room ↦ rw no_room (no_place d)
      | inr room ↦ elim (Bool-cases (leb fs_max_files d.count)) [
        | inl full ↦ rw (room, full) (no_place _)
        | inr entry ↦ rw (room, entry) (new-NamedCase need name d (ground arith))
      ]
    ]
place-NamedCase (some i) need data_end name d lt le len =
    elim (Bool-cases (leb need (need_sectors (file d i).size))) [
      | inl small ↦ rw small (named i d (lt i refl) refl (λ j below. refl) (inl (refl, refl)))
      | inr large ↦ elim (Bool-cases (ltb data_end (add32 d.next_free need))) [
        | inl no_room ↦ rw (large, no_room) (no_place d)
        | inr room ↦ rw (large, room) (again-NamedCase i need name d (lt i refl) (omega arith))
      ]
    ]

-- The entry that was chosen is found in any directory that has its count, its name and those before.
pub named-found :
    (i : ℕ) (o : Option ℕ) (name : List ℕ) (d d' : Dir)
    → Lookup d name 0 d.count o
    → i < d'.count
    → ((j : ℕ) → j < i → (file d' j).name ≡ (file d j).name)
    → (o ≡ some i × ((file d' i).name ≡ (file d i).name))
      ⊎ (o ≡ none × (i ≡ d.count) × ((file d' i).name ≡ copy16 16 0 name))
    → stinkfs_find d' name ≡ some i
named-found i none name d d' l lt before (inl (e, n)) = cc e
named-found i (some k) name d d' l lt before (inr (e, at, n)) = cc e
named-found i (some k) name d d' (hit k' lo hi e below) lt before (inl (q, n)) =
    Lookup-unique (stinkfs_find-Lookup d' name) (
      hit i (omega arith) (omega arith)
        (ap (λ x. name_eq x name) n
          ∙ ap (λ m. name_eq (file d m).name name) (sym (some_same q))
          ∙ e)
        (λ j from to.
          ap (λ x. name_eq x name) (before j to) ∙ below j from (omega (arith, some_same q))))
named-found i none name d d' (miss all) lt before (inr (q, at, n)) =
    Lookup-unique (stinkfs_find-Lookup d' name) (
      hit i (omega arith) (omega arith) (ap (λ x. name_eq x name) n ∙ name_eq-copy16 name)
        (λ j from to. ap (λ x. name_eq x name) (before j to) ∙ all j from (omega arith)))
