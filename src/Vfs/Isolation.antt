-- ===== src/Vfs/Isolation.antt =====
-- Descriptors do not disturb each other, over any sequence of calls.
use stink_os.Base.{
  ℕ, ◌≡◌, ◌≢◌, inl, inr, refl, sym, ap, ◌∙◌, List, Option, none, some, Bool, true, false, length,
  if◌then◌else◌,
}
use stink_os.Vfs.Table.{Fd}
use stink_os.Vfs.Files.{
  Files, fd_slot, put_fd, vfs_open, vfs_close, advance, vfs_read, vfs_write, vfs_seek,
}
use stink_os.Vfs.Cursor.{
  Same, Acts, Acts-keeps, vfs_open-keeps, vfs_open-free, vfs_close-Acts, Handle, open_fd,
  get_fd-Handle, ReadCase, not_open, failed, advanced, vfs_read-cases, SeekCase, no_seek, sought,
  vfs_seek-cases,
}
use stink_os.Fs.Mounts.{Fs, fs_file_write_at}

ReadCase-Acts :
    {fd n : ℕ} {s : Files} {r : Option (List ℕ) × Files} → ReadCase fd n s r → Acts fd s r.1
ReadCase-Acts not_open = inl refl
ReadCase-Acts (failed fs e) = inl refl
ReadCase-Acts (advanced bytes fs e) = inr (_, refl)

SeekCase-Acts : {fd : ℕ} {s : Files} {r : Option ℕ × Files} → SeekCase fd s r → Acts fd s r.1
SeekCase-Acts no_seek = inl refl
SeekCase-Acts (sought p small lt used) = inr (_, refl)

vfs_write-Acts : (fd : ℕ) (bytes : List ℕ) (s : Files) → Acts fd s (vfs_write fd bytes s).1
unfolding vfs_write
vfs_write-Acts fd bytes s = written _ (get_fd-Handle fd s)
  where
    stored :
        (ok : Bool) (fs : Fs)
        → Acts fd s
            (if◌then◌else◌ {A = Option ℕ × Files} ok
              (
                some (length bytes),
                put_fd (record s { fs = fs }) fd (advance (length bytes) (fd_slot s fd)),
              )
              (none, record s { fs = fs })).1
    stored true fs = inr (_, refl)
    stored false fs = inl refl

    written :
        (o : Option ℕ)
        → Handle fd s o
        → Acts fd s
            (elim o as (λ x. Option ℕ × Files) [
              | none ↦ (none, s)
              | some i ↦
                  let (ok, fs') =
                    fs_file_write_at (fd_slot s i).name bytes (fd_slot s i).off s.fs in
                  if ok
                  then (
                    some (length bytes),
                    put_fd (record s { fs = fs' }) i (advance (length bytes) (fd_slot s i)),
                  )
                  else (none, record s { fs = fs' })
            ]).1
    written none h = inl refl
    written (some i) (open_fd lt used) = stored _ _

-- One call of the layer that is not on descriptor `j`.
pub data Call (j : ℕ) (s : Files) : Files → Type 0 where
  opens : (name : List ℕ) (flags : ℕ) → Call j s (vfs_open name flags s).1
  closes : (fd : ℕ) → fd ≢ j → Call j s (vfs_close fd s).1
  reads : (fd n : ℕ) → fd ≢ j → Call j s (vfs_read fd n s).1
  writes : (fd : ℕ) (bytes : List ℕ) → fd ≢ j → Call j s (vfs_write fd bytes s).1
  seeks : (fd offset whence : ℕ) → fd ≢ j → Call j s (vfs_seek fd offset whence s).1

-- Any number of them.
pub data Calls (j : ℕ) (s : Files) : Files → Type 0 where
  done : Calls j s s
  then_call : {s' s'' : Files} → Calls j s s' → Call j s' s'' → Calls j s s''

Call-keeps : {j : ℕ} {s s' : Files} → Call j s s' → (fd_slot s j).used ≡ true → Same j s s'
Call-keeps {j} {s} (opens name flags) used = vfs_open-keeps j name flags s used
Call-keeps {j} {s} (closes fd ne) used =
    Acts-keeps j fd s (vfs_close fd s).1 ne (vfs_close-Acts fd s)
Call-keeps {j} {s} (reads fd n ne) used =
    Acts-keeps j fd s (vfs_read fd n s).1 ne (ReadCase-Acts (vfs_read-cases fd n s))
Call-keeps {j} {s} (writes fd bytes ne) used =
    Acts-keeps j fd s (vfs_write fd bytes s).1 ne (vfs_write-Acts fd bytes s)
Call-keeps {j} {s} (seeks fd offset whence ne) used =
    Acts-keeps j fd s (vfs_seek fd offset whence s).1 ne
      (SeekCase-Acts (vfs_seek-cases fd offset whence s))

keeps : {j : ℕ} {s s' : Files} → Calls j s s' → (fd_slot s j).used ≡ true → Same j s s'
keeps done used = refl
keeps {j} (then_call before call) used =
    let so_far = keeps before used in
    Call-keeps call (ap (λ (f : Fd). f.used) so_far ∙ used) ∙ so_far

-- A descriptor that is in use keeps its name and its cursor through any sequence of opens, and of
-- closes, reads, writes and seeks on other descriptors, whether they succeed or fail, even on the same
-- file; and an open that follows them, of any name with any flags, does not hand its number out.
pub Calls-Same :
    {j : ℕ} {s s' : Files} (name : List ℕ) (flags : ℕ)
    → Calls j s s'
    → (fd_slot s j).used ≡ true
    → Same j s s' × ((vfs_open name flags s').0 ≢ some j)
Calls-Same {j} {s} {s'} name flags calls used =
    let same = keeps calls used in
    (same, λ e. cc (sym (vfs_open-free name flags s' j e) ∙ ap (λ (f : Fd). f.used) same ∙ used))
