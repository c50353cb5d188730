-- ===== src/Fs/Append.antt =====
-- The volume after `stinkfs_file_append` and `stinkfs_file_write_at` of kernel/fs/fs.c.
use stink_os.Base.{
  ℕ, ◌<◌, ◌≡◌, refl, sym, subst, List, [], ◌∷◌, Option, none, some, Bool, true, false, length,
  if◌then◌else◌, add32,
}
use stink_os.Fs.{Ata, Dir, Mount, file}
use stink_os.Fs.Stink.{stinkfs_find, stinkfs_grow, stinkfs_file_write}
use stink_os.Fs.Update.{
  resized, put_and_save, append_at, stinkfs_file_append, grow_to, same_dir, write_at,
  stinkfs_file_write_at,
}
use stink_os.Fs.Extents.{IsValid}
use stink_os.Fs.Names.{find-bound}
use stink_os.Fs.Write.{saved_same, stinkfs_file_write-IsValid}
use stink_os.Fs.Grow.{stinkfs_grow-HasRoom}

put_and_save-IsValid :
    (grown : Bool) (i at : ℕ) (bytes : List ℕ) (resize : Dir → Dir) (m : Mount) (a : Ata)
    → IsValid m
    → (grown ≡ true → IsValid (record m { dir = resize m.dir }))
    → IsValid (put_and_save grown i at bytes resize m a).1
put_and_save-IsValid false i at bytes resize m a v w = v
put_and_save-IsValid true i at bytes resize m a v w =
    subst IsValid (sym (saved_same _ _ _)) (either _)
  where
    either : (ok : Bool) → IsValid (if ok then record m { dir = resize m.dir } else m)
    either true = w refl
    either false = v

append_at-IsValid :
    (o : Option ℕ) (name bytes : List ℕ) (a : Ata) {m : Mount}
    → IsValid m
    → ((i : ℕ) → o ≡ some i → i < m.dir.count)
    → IsValid (append_at o name bytes m a).1
unfolding append_at
append_at-IsValid none name bytes a v lt = stinkfs_file_write-IsValid name bytes a v
append_at-IsValid (some i) name [] a v lt = v
append_at-IsValid (some i) name (c ∷ cs) a {m} v lt = either _
  where
    new_size : ℕ
    new_size = add32 (file m.dir i).size (length (c ∷ cs))

    out : Bool × Mount × Ata
    out = stinkfs_grow i new_size m a

    room :
        IsValid out.1
        × (out.0 ≡ true → IsValid (record (out.1) { dir = resized i new_size out.1.dir }))
    room = stinkfs_grow-HasRoom i new_size a v (lt i refl)

    either :
        (wrapped : Bool)
        → IsValid
            (if wrapped
              then (false, m, a)
              else put_and_save out.0 i
                  (file m.dir i).size
                  (c ∷ cs)
                  (resized i new_size)
                  out.1
                  out.2).1
    either true = v
    either false =
        put_and_save-IsValid out.0 i _ (c ∷ cs) (resized i new_size) out.1 out.2 room.0 room.1

-- Appending to a file keeps the volume valid, whether the file exists or not, grows in place, moves
-- behind the others or finds no room, and whichever commands of the drive fail.
pub stinkfs_file_append-IsValid :
    (name bytes : List ℕ) (a : Ata) {m : Mount}
    → IsValid m
    → IsValid (stinkfs_file_append name bytes m a).1
unfolding stinkfs_file_append
stinkfs_file_append-IsValid name bytes a {m} v =
    append_at-IsValid (stinkfs_find m.dir name) name bytes a v (λ i e. find-bound m.dir name i e)

grow_to-IsValid :
    (i end : ℕ) (a : Ata) {m : Mount} → IsValid m → i < m.dir.count → IsValid (grow_to i end m a).1
unfolding grow_to
grow_to-IsValid i end a {m} v lt = outer _
  where
    out : Bool × Mount × Ata
    out = stinkfs_grow i end m a

    room :
        IsValid out.1 × (out.0 ≡ true → IsValid (record (out.1) { dir = resized i end out.1.dir }))
    room = stinkfs_grow-HasRoom i end a v lt

    inner :
        (b : Bool)
        → out.0 ≡ b
        → IsValid (if b then record (out.1) { dir = resized i end out.1.dir } else out.1)
    inner true e = room.1 e
    inner false e = room.0

    kept : Bool × Mount × Ata
    kept = (true, m, a)

    longer_out : Bool × Mount × Ata
    longer_out =
        (out.0, (if out.0 then record (out.1) { dir = resized i end out.1.dir } else out.1), out.2)

    outer : (longer : Bool) → IsValid (if longer then longer_out else kept).1
    outer true = inner out.0 refl
    outer false = v

write_at-IsValid :
    (o : Option ℕ) (name bytes : List ℕ) (offset : ℕ) (a : Ata) {m : Mount}
    → IsValid m
    → ((i : ℕ) → o ≡ some i → i < m.dir.count)
    → IsValid (write_at o name bytes offset m a).1
unfolding write_at same_dir
write_at-IsValid none name bytes offset a {m} v lt = either _
  where
    either : (b : Bool) → IsValid (if b then stinkfs_file_write name bytes m a else (false, m, a)).1
    either true = stinkfs_file_write-IsValid name bytes a v
    either false = v
write_at-IsValid (some i) name bytes offset a {m} v lt = either _
  where
    out : Bool × Mount × Ata
    out = grow_to i (add32 offset (length bytes)) m a

    room : IsValid out.1
    room = grow_to-IsValid i (add32 offset (length bytes)) a v (lt i refl)

    either :
        (bad : Bool)
        → IsValid
            (if bad
              then (false, m, a)
              else put_and_save out.0 i offset bytes same_dir out.1 out.2).1
    either true = v
    either false = put_and_save-IsValid out.0 i offset bytes same_dir out.1 out.2 room (λ e. room)

-- Writing into a file at an offset keeps the volume valid, on every branch and whichever commands of
-- the drive fail.
pub stinkfs_file_write_at-IsValid :
    (name bytes : List ℕ) (offset : ℕ) (a : Ata) {m : Mount}
    → IsValid m
    → IsValid (stinkfs_file_write_at name bytes offset m a).1
unfolding stinkfs_file_write_at
stinkfs_file_write_at-IsValid name [] offset a v = v
stinkfs_file_write_at-IsValid name (c ∷ cs) offset a {m} v =
    write_at-IsValid (stinkfs_find m.dir name) name (c ∷ cs) offset a v
      (λ i e. find-bound m.dir name i e)
