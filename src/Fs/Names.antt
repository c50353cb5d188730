-- ===== src/Fs/Names.antt =====
-- `stinkfs_find`: the entry of a name.
use stink_os.Base.{
  ℕ, zero, suc, ◌+◌, ◌≤◌, ◌<◌, ◌≡◌, refl, subst, List, Option, none, some, Bool, true, false, arith,
  if◌then◌else◌, some_same, ℕ_discrete,
}
use stink_os.Fs.{Dir, file, name_eq}
use stink_os.Fs.Stink.{find_from, stinkfs_find}

-- The first entry with the name, or that there is none.
pub data Lookup (d : Dir) (name : List ℕ) (k left : ℕ) : Option ℕ → Type 0 where
  hit :
      (i : ℕ)
      → k ≤ i
      → i < k + left
      → name_eq (file d i).name name ≡ true
      → ((j : ℕ) → k ≤ j → j < i → name_eq (file d j).name name ≡ false)
      → Lookup d name k left (some i)
  miss :
      ((j : ℕ) → k ≤ j → j < k + left → name_eq (file d j).name name ≡ false)
      → Lookup d name k left none

look_on :
    (d : Dir) (name : List ℕ) (k left : ℕ) (r : Option ℕ) (b : Bool)
    → name_eq (file d k).name name ≡ b
    → Lookup d name (k + 1) left r
    → Lookup d name k (suc left) (if b then some k else r)
look_on d name k left r true e rest =
    hit k (omega arith) (omega arith) e (λ j lo hi. absurd (omega arith))
look_on d name k left (some i) false e (hit i' lo hi q below) =
    hit i' (omega arith) (omega arith) q (λ j from to. elim (ℕ_discrete k j) [
      | yes same ↦ subst (λ m. name_eq (file d m).name name ≡ false) same e
      | no ne ↦ below j (omega arith) to
    ])
look_on d name k left none false e (miss all) = miss (λ j from to. elim (ℕ_discrete k j) [
  | yes same ↦ subst (λ m. name_eq (file d m).name name ≡ false) same e
  | no ne ↦ all j (omega arith) (omega arith)
])

find_from-Lookup :
    (left k : ℕ) (d : Dir) (name : List ℕ) → Lookup d name k left (find_from left k d name)
unfolding find_from
find_from-Lookup zero k d name = miss (λ j lo hi. absurd (omega arith))
find_from-Lookup (suc left) k d name =
    look_on d name k left _ (name_eq (file d k).name name) refl
      (find_from-Lookup left (k + 1) d name)

-- `stinkfs_find` gives the first of the `count` entries whose name equals the one asked for, and none
-- only if no entry's name does.
pub stinkfs_find-Lookup : (d : Dir) (name : List ℕ) → Lookup d name 0 d.count (stinkfs_find d name)
unfolding stinkfs_find
stinkfs_find-Lookup d name = find_from-Lookup d.count 0 d name

Lookup-bound :
    {d : Dir} {name : List ℕ} {k left : ℕ} {r : Option ℕ} (i : ℕ)
    → Lookup d name k left r
    → r ≡ some i
    → i < k + left
Lookup-bound i (hit j lo hi q below) e = omega (arith, some_same e)
Lookup-bound i (miss all) e = cc e

pub find-bound : (d : Dir) (name : List ℕ) (i : ℕ) → stinkfs_find d name ≡ some i → i < d.count
find-bound d name i e = omega (arith, Lookup-bound i (stinkfs_find-Lookup d name) e)
