-- ===== src/Fs/Extents.antt =====
-- The extents of the files: which operations keep them apart.
use stink_os.Base.{
  ℕ, ◌+◌, ◌^◌, ◌≤◌, ◌<◌, ◌≡◌, ◌≢◌, ◌⊎◌, inl, inr, refl, sym, ◌∙◌, subst, length, get_or, set, arith,
  get_or-set_self, get_or-set_ne, length-set, ℕ_discrete,
}
use stink_os.Fs.{fs_max_files, File, Dir, Mount, no_file, file, put_file}
use stink_os.Fs.Stink.{need_sectors}

-- The sectors of a file lie in the data region, below `next_free`.
pub record IsPlaced (lo hi : ℕ) (f : File) : Type 0 where
  pub word : f.start < 2 ^ 32
  pub from_low : 0 < need_sectors f.size → lo ≤ f.start
  pub to_high : 0 < need_sectors f.size → f.start + need_sectors f.size ≤ hi

-- Two files share no sector. A file of no sectors may have any start.
abbrev pub IsApart : File → File → Type 0
IsApart f g =
    0 < need_sectors f.size
    → 0 < need_sectors g.size
    → (f.start + need_sectors f.size ≤ g.start) ⊎ (g.start + need_sectors g.size ≤ f.start)

-- A mounted volume: its bounds are those that `fs_mount_register` accepts, below the top of the
-- 32-bit sector numbers, and every two files are apart.
pub record IsValid (m : Mount) : Type 0 where
  pub low : m.data_lba ≤ m.dir.next_free
  pub high : m.dir.next_free ≤ m.data_end
  pub no_wrap : m.data_end + 2 ^ 24 < 2 ^ 32
  pub slots : length m.dir.files ≡ fs_max_files
  pub counted : m.dir.count ≤ fs_max_files
  pub placed : (i : ℕ) → i < m.dir.count → IsPlaced m.data_lba m.dir.next_free (file m.dir i)
  pub apart :
      (i j : ℕ) → i < m.dir.count → j < m.dir.count → i ≢ j → IsApart (file m.dir i) (file m.dir j)

pub need_sectors-bound : (size : ℕ) → need_sectors size ≤ 2 ^ 23
need_sectors-bound size = omega arith

pub IsApart-sym : (f g : File) → IsApart f g → IsApart g f
IsApart-sym f g a p q = elim (a q p) [ inl x ↦ inr x | inr x ↦ inl x ]

-- The volume with entry `i` set, and with the end of the used sectors and the number of files moved.
abbrev pub with_file : ℕ → File → ℕ → ℕ → Mount → Mount
with_file i f next count m = record m {
  dir = put_file i f (record m.dir { next_free = next; count = count });
}

-- What holds of the new entry and of the old others holds of all.
file-put :
    (d : Dir) (i : ℕ) (f : File) (P : ℕ → File → Type 0)
    → length d.files ≡ fs_max_files
    → i < fs_max_files
    → P i f
    → ((j : ℕ) → i ≢ j → P j (file d j))
    → (j : ℕ) → P j (file (put_file i f d) j)
file-put d i f P len lt new old j = elim (ℕ_discrete i j) [
  | yes e ↦
      subst (λ k. P k (get_or (set d.files i f) k no_file)) e
        (subst (P i) (sym (get_or-set_self d.files i f no_file (rw len lt))) new)
  | no ne ↦ subst (P j) (sym (get_or-set_ne d.files i j f no_file ne)) (old j ne)
]

pub IsPlaced-up : {lo hi hi' : ℕ} {f : File} → hi ≤ hi' → IsPlaced lo hi f → IsPlaced lo hi' f
IsPlaced-up le p = record {
  word = p.word;
  from_low = p.from_low;
  to_high = λ n. omega (arith, p.to_high n);
}

-- Setting one entry keeps a volume valid if the new entry lies below the end of the used sectors, which
-- may move up, and is apart from the others. The entry may be the one behind the last.
pub with_file-IsValid :
    {m : Mount} (i : ℕ) (f : File) (next count : ℕ)
    → IsValid m
    → m.dir.next_free ≤ next
    → next ≤ m.data_end
    → i < count
    → count ≤ fs_max_files
    → ((j : ℕ) → j < count → i ≢ j → j < m.dir.count)
    → IsPlaced m.data_lba next f
    → ((j : ℕ) → j < m.dir.count → i ≢ j → IsApart f (file m.dir j))
    → IsValid (with_file i f next count m)
with_file-IsValid {m} i f next count v up top lt small others placed apart = record {
  low = omega (arith, v.low);
  high = top;
  no_wrap = v.no_wrap;
  slots = length-set m.dir.files i f ∙ v.slots;
  counted = small;
  placed =
      file-put m.dir i f (λ j g. j < count → IsPlaced m.data_lba next g) v.slots (omega arith)
        (λ h. placed) (λ j ne h. IsPlaced-up up (v.placed j (others j h ne)));
  apart = λ j k.
      file-put m.dir i f
        (λ a g. a < count → k < count → a ≢ k → IsApart g (file (put_file i f m.dir) k)) v.slots
        (omega arith)
        (λ ha hk ne.
          file-put m.dir i f (λ b g. b < count → i ≢ b → IsApart f g) v.slots (omega arith)
            (λ hb ne'. absurd (ne' refl)) (λ b ne'' hb ne'. apart b (others b hb ne') ne') k hk ne)
        (λ a nea ha hk ne.
          file-put m.dir i f (λ b g. b < count → a ≢ b → IsApart (file m.dir a) g) v.slots
            (omega arith) (λ hb ne'. IsApart-sym f (file m.dir a) (apart a (others a ha nea) nea))
            (λ b neb hb ne'. v.apart a b (others a ha nea) (others b hb neb) ne') k hk ne)
        j;
}

-- A file that lies behind all others is apart from them.
pub behind-IsApart : {lo hi : ℕ} (f g : File) → hi ≤ f.start → IsPlaced lo hi g → IsApart f g
behind-IsApart f g le p nf ng = inr (omega (arith, p.to_high ng))

-- A file that starts where it did and needs no more sectors stays apart from others.
pub narrower-IsApart :
    (f f' g : File)
    → f'.start ≡ f.start
    → need_sectors f'.size ≤ need_sectors f.size
    → IsApart f g
    → IsApart f' g
narrower-IsApart f f' g s n a nf ng = elim (a (omega arith) ng) [
  | inl x ↦ inl (omega arith)
  | inr x ↦ inr (omega arith)
]

pub narrower-IsPlaced :
    {lo hi : ℕ} (f f' : File)
    → f'.start ≡ f.start
    → need_sectors f'.size ≤ need_sectors f.size
    → IsPlaced lo hi f
    → IsPlaced lo hi f'
narrower-IsPlaced f f' s n p = record {
  word = omega (arith, p.word);
  from_low = λ q. omega (arith, p.from_low (omega arith));
  to_high = λ q. omega (arith, p.to_high (omega arith));
}
