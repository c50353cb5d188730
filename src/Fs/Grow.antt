-- ===== src/Fs/Grow.antt =====
-- `stinkfs_grow` makes room for a larger file.
use stink_os.Base.{
  ℕ, ◌+◌, ◌^◌, ◌≤◌, ◌<◌, ◌≡◌, inl, inr, refl, sym, subst, Bool, true, false, ltb, leb, ◌==◌,
  if◌then◌else◌, add32, arith, Bool-cases, dec_lt,
}
use stink_os.Fs.{Ata, File, Mount, file, put_file}
use stink_os.Fs.Stink.{need_sectors, grow_moved, stinkfs_grow}
use stink_os.Fs.Update.{resized}
use stink_os.Fs.Extents.{
  IsValid, IsPlaced, IsApart, with_file, with_file-IsValid, behind-IsApart, narrower-IsApart,
  narrower-IsPlaced,
}
use stink_os.Fs.Write.{set-resized, raised, grown_by}

-- How a file is grown, or that it is not.
data GrowCase (i size : ℕ) (m : Mount) : Bool × Mount → Type 0 where
  failed : GrowCase i size m (false, m)
  enough : need_sectors size ≤ need_sectors (file m.dir i).size → GrowCase i size m (true, m)
  in_place :
      need_sectors (file m.dir i).size < need_sectors size
      → add32 (file m.dir i).start (need_sectors (file m.dir i).size) ≡ m.dir.next_free
      → add32 (file m.dir i).start (need_sectors size) ≤ m.data_end
      → GrowCase i size m (
        true,
        record m {
          dir = record m.dir { next_free = add32 (file m.dir i).start (need_sectors size) };
        },
      )
  moved :
      need_sectors (file m.dir i).size < need_sectors size
      → add32 m.dir.next_free (need_sectors size) ≤ m.data_end
      → GrowCase i size m (
        true,
        record m {
          dir =
              put_file i
                (record (file m.dir i) { start = m.dir.next_free })
                (record m.dir { next_free = add32 m.dir.next_free (need_sectors size) });
        },
      )

grow_moved-GrowCase :
    (i size : ℕ) (m : Mount) (a : Ata)
    → need_sectors (file m.dir i).size < need_sectors size
    → GrowCase i size m
        ((grow_moved i (need_sectors size) m a).0, (grow_moved i (need_sectors size) m a).1)
unfolding grow_moved
grow_moved-GrowCase i size m a more =
    elim (Bool-cases (ltb m.data_end (add32 m.dir.next_free (need_sectors size)))) [
      | inl no_room ↦ rw no_room failed
      | inr room ↦ rw room (copied _ (ground arith))
    ]
  where
    copied :
        (ok : Bool)
        → add32 m.dir.next_free (need_sectors size) ≤ m.data_end
        → GrowCase i size m (
          ok,
          (if ok
              then record m {
                dir =
                    put_file i
                      (record (file m.dir i) { start = m.dir.next_free })
                      (record m.dir { next_free = add32 m.dir.next_free (need_sectors size) });
              }
              else m),
        )
    copied true fits = moved more fits
    copied false fits = failed

stinkfs_grow-GrowCase :
    (i size : ℕ) (m : Mount) (a : Ata)
    → GrowCase i size m ((stinkfs_grow i size m a).0, (stinkfs_grow i size m a).1)
unfolding stinkfs_grow
stinkfs_grow-GrowCase i size m a =
    elim (Bool-cases (leb (need_sectors size) (need_sectors (file m.dir i).size))) [
      | inl small ↦ rw small (enough (ground arith))
      | inr large ↦
          elim (Bool-cases
            (add32 (file m.dir i).start (need_sectors (file m.dir i).size) == m.dir.next_free)) [
              | inl last ↦
                  elim (Bool-cases
                    (ltb m.data_end (add32 (file m.dir i).start (need_sectors size)))) [
                      | inl no_room ↦ rw (large, last, no_room) failed
                      | inr room ↦
                          rw (large, last, room)
                            (in_place (ground arith) (ground arith) (ground arith))
                    ]
              | inr inner ↦ rw (large, inner) (grow_moved-GrowCase i size m a (ground arith))
            ]
    ]

-- A file that ends where the used sectors end is apart from all others however far it grows.
last-IsApart :
    {lo hi : ℕ} (f f' g : File)
    → hi + 2 ^ 24 < 2 ^ 32
    → IsPlaced lo hi f
    → IsPlaced lo hi g
    → add32 f.start (need_sectors f.size) ≡ hi
    → f'.start ≡ f.start
    → IsApart f g
    → IsApart f' g
last-IsApart f f' g small pf pg last same a nf ng = elim (dec_lt 0 (need_sectors f.size)) [
  | yes more ↦ elim (a more ng) [
    | inl x ↦ absurd (omega (arith, pg.to_high ng, pf.to_high more))
    | inr x ↦ inr (omega arith)
  ]
  | no empty ↦ inr (omega (arith, pg.to_high ng, pf.word))
]

last-IsPlaced :
    {lo hi next : ℕ} (f f' : File)
    → lo ≤ hi
    → hi + 2 ^ 24 < 2 ^ 32
    → IsPlaced lo hi f
    → add32 f.start (need_sectors f.size) ≡ hi
    → f'.start ≡ f.start
    → f.start + need_sectors f'.size ≤ next
    → IsPlaced lo next f'
last-IsPlaced f f' le small p last same room = record {
  word = omega (arith, p.word);
  from_low = λ q. elim (dec_lt 0 (need_sectors f.size)) [
    | yes more ↦ omega (arith, p.from_low more)
    | no empty ↦ omega (arith, p.word)
  ];
  to_high = λ q. omega arith;
}

start_bound :
    {lo hi : ℕ} (f : File)
    → hi + 2 ^ 24 < 2 ^ 32
    → IsPlaced lo hi f
    → add32 f.start (need_sectors f.size) ≡ hi
    → f.start + need_sectors f.size ≡ hi
start_bound f small p last = elim (dec_lt 0 (need_sectors f.size)) [
  | yes more ↦ omega (arith, p.to_high more)
  | no empty ↦ omega (arith, p.word)
]

GrowCase-HasRoom :
    (i size : ℕ) {m : Mount} {r : Bool × Mount}
    → IsValid m
    → i < m.dir.count
    → GrowCase i size m r
    → IsValid r.1 × (r.0 ≡ true → IsValid (record r.1 { dir = resized i size r.1.dir }))
GrowCase-HasRoom i size v lt failed = (v, λ e. cc e)
GrowCase-HasRoom i size {m} v lt (enough small) = (
  v,
  λ e.
      with_file-IsValid i _ m.dir.next_free m.dir.count v (omega arith) v.high lt v.counted
        (λ j h ne. h) (narrower-IsPlaced (file m.dir i) _ refl small (v.placed i lt))
        (λ j h ne.
          narrower-IsApart (file m.dir i) (record (file m.dir i) { size = size }) (file m.dir j)
            refl small (v.apart i j lt h ne)),
)
GrowCase-HasRoom i size {m} v lt (in_place more last fits) = (
  raised next v up fits,
  λ e.
      with_file-IsValid i g next m.dir.count v up fits lt v.counted (λ j h ne. h)
        (last-IsPlaced f g v.low small (v.placed i lt) last refl (omega (arith, exact)))
        (λ j h ne.
          last-IsApart f g (file m.dir j) small (v.placed i lt) (v.placed j h) last refl
            (v.apart i j lt h ne)),
)
  where
    f : File
    f = file m.dir i

    g : File
    g = record f { size = size }

    next : ℕ
    next = add32 f.start (need_sectors size)

    small : m.dir.next_free + 2 ^ 24 < 2 ^ 32
    small = omega (arith, v.no_wrap, v.high)

    sum : f.start + need_sectors f.size ≡ m.dir.next_free
    sum = start_bound f small (v.placed i lt) last

    exact : next ≡ f.start + need_sectors size
    exact = grown_by f.start size m.data_end (omega (arith, v.high, sum)) v.no_wrap

    up : m.dir.next_free ≤ next
    up = omega (arith, sum, exact)
GrowCase-HasRoom i size {m} v lt (moved more fits) = (
  at_end f (omega arith),
  λ e.
      subst (λ fs. IsValid (record m { dir = record m.dir { files = fs; next_free = next } }))
        (sym (set-resized m.dir.files i f size (omega (arith, v.slots, v.counted))))
        (at_end (record f { size = size }) (omega arith)),
)
  where
    f : File
    f = record (file m.dir i) { start = m.dir.next_free }

    next : ℕ
    next = add32 m.dir.next_free (need_sectors size)

    exact : next ≡ m.dir.next_free + need_sectors size
    exact = grown_by m.dir.next_free size m.data_end v.high v.no_wrap

    at_end :
        (g : File)
        → need_sectors g.size ≤ need_sectors size
        → IsValid (with_file i (record g { start = m.dir.next_free }) next m.dir.count m)
    at_end g small =
        with_file-IsValid i (record g { start = m.dir.next_free }) next m.dir.count v
          (omega (arith, exact)) fits lt v.counted (λ j h ne. h)
          (record {
            word = omega (arith, v.high, v.no_wrap);
            from_low = λ q. v.low;
            to_high = λ q. omega (arith, exact, small);
          })
          (λ j h ne.
            behind-IsApart (record g { start = m.dir.next_free }) (file m.dir j) (omega arith)
              (v.placed j h))

pub stinkfs_grow-HasRoom :
    (i size : ℕ) (a : Ata) {m : Mount}
    → IsValid m
    → i < m.dir.count
    → IsValid (stinkfs_grow i size m a).1
      × ((stinkfs_grow i size m a).0 ≡ true
          → IsValid (record ((stinkfs_grow i size m a).1) {
            dir = resized i size (stinkfs_grow i size m a).1.dir;
          }))
stinkfs_grow-HasRoom i size a {m} v lt =
    GrowCase-HasRoom i size v lt (stinkfs_grow-GrowCase i size m a)
