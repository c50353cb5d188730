-- ===== src/Vfs/Cursor.antt =====
-- What the calls on one descriptor do to it, and that they leave the other descriptors alone.
use stink_os.Base.{
  ℕ, zero, suc, ◌+◌, ◌^◌, ◌<◌, ◌≡◌, ◌≢◌, ◌⊎◌, inl, inr, refl, ap, ◌∙◌, List, [], ◌∷◌, Option, none,
  some, Bool, true, false, length, get_or, set, leb, if◌then◌else◌, add32, arith, Bool-cases,
  get_or-set_ne,
}
use stink_os.Vfs.Table.{Fd, vfs_fd_max, cleared_fd}
use stink_os.Vfs.Files.{
  Files, fd_slot, put_fd, is_negative, get_fd, open_from, open_slot, vfs_open, vfs_close, advance,
  vfs_read, seek_base, seek_to, vfs_seek,
}
use stink_os.Fs.Mounts.{Fs, fs_file_read_at, fs_file_write}

-- The descriptor of a number, or that it is not open.
pub data Handle (fd : ℕ) (s : Files) : Option ℕ → Type 0 where
  open_fd : fd < vfs_fd_max → (fd_slot s fd).used ≡ true → Handle fd s (some fd)
  no_fd : Handle fd s none

pub get_fd-Handle : (fd : ℕ) (s : Files) → Handle fd s (get_fd fd s)
unfolding get_fd
get_fd-Handle fd s = elim (Bool-cases (leb vfs_fd_max fd)) [
  | inl out ↦ rw out no_fd
  | inr inside ↦ elim (Bool-cases (fd_slot s fd).used) [
    | inl used ↦ rw (inside, used) (open_fd (ground arith) used)
    | inr unused ↦ rw (inside, unused) no_fd
  ]
]

-- Descriptor `j` is the same in both states.
abbrev pub Same : ℕ → Files → Files → Type 0
Same j s s' = fd_slot s' j ≡ fd_slot s j

open_from-keeps :
    (i j : ℕ) (name : List ℕ) (fds : List Fd)
    → (get_or fds j cleared_fd).used ≡ true
    → get_or (open_from i name fds).1 j cleared_fd ≡ get_or fds j cleared_fd
unfolding open_from
open_from-keeps i j name [] used = refl
open_from-keeps i zero name (f ∷ fds) used = rw used refl
open_from-keeps i (suc j) name (f ∷ fds) used = elim (Bool-cases f.used) [
  | inl here ↦ rw here (open_from-keeps (i + 1) j name fds used)
  | inr free ↦ rw free refl
]

open_slot-keeps :
    (j : ℕ) (name : List ℕ) (s : Files) → (fd_slot s j).used ≡ true → Same j s (open_slot name s).1
unfolding open_slot
open_slot-keeps j name s used = open_from-keeps 0 j name s.fds used

pub vfs_open-keeps :
    (j : ℕ) (name : List ℕ) (flags : ℕ) (s : Files)
    → (fd_slot s j).used ≡ true
    → Same j s (vfs_open name flags s).1
unfolding vfs_open
vfs_open-keeps j name flags s used = outer _ _ _
  where
    after : Files
    after = record s { fs = (fs_file_write name [] s.fs).1 }

    refused : Option ℕ × Files
    refused = (none, s)

    not_made : Option ℕ × Files
    not_made = (none, after)

    outer :
        (new no_flag ok : Bool)
        → Same j s
            (if new
              then (if no_flag then refused else if ok then open_slot name after else not_made)
              else open_slot name s).1
    outer false no_flag ok = open_slot-keeps j name s used
    outer true true ok = refl
    outer true false false = refl
    outer true false true = open_slot-keeps j name after used

-- The number that an open hands out is that of a slot that was free.
open_from-free :
    (i : ℕ) (name : List ℕ) (fds : List Fd) (r : ℕ)
    → (open_from i name fds).0 ≡ some r
    → (k : ℕ) × (r ≡ i + k) × ((get_or fds k cleared_fd).used ≡ false)
unfolding open_from
open_from-free i name [] r e = cc
open_from-free i name (f ∷ fds) r e = elim (Bool-cases f.used) [
  | inl here ↦
      let (k, at, free) = open_from-free (i + 1) name fds r (ground arith) in
      (suc k, omega (arith, at), free)
  | inr free ↦ (0, ground arith, free)
]

open_slot-free :
    (name : List ℕ) (s : Files) (r : ℕ) → (open_slot name s).0 ≡ some r → (fd_slot s r).used ≡ false
unfolding open_slot
open_slot-free name s r e =
    let (k, at, free) = open_from-free 0 name s.fds r e in
    let same : r ≡ k = omega (arith, at) in ap (λ n. (get_or s.fds n cleared_fd).used) same ∙ free

pub vfs_open-free :
    (name : List ℕ) (flags : ℕ) (s : Files) (r : ℕ)
    → (vfs_open name flags s).0 ≡ some r
    → (fd_slot s r).used ≡ false
unfolding vfs_open
vfs_open-free name flags s r = outer _ _ _
  where
    after : Files
    after = record s { fs = (fs_file_write name [] s.fs).1 }

    outer :
        (new no_flag ok : Bool)
        → (if◌then◌else◌ {A = Option ℕ × Files} new
            (if no_flag then (none, s) else if ok then open_slot name after else (none, after))
            (open_slot name s)).0
          ≡ some r
        → (fd_slot s r).used ≡ false
    outer false no_flag ok e = open_slot-free name s r e
    outer true true ok e = cc
    outer true false false e = cc
    outer true false true e = open_slot-free name after r e

put_fd-keeps : (j fd : ℕ) (f : Fd) (s : Files) → fd ≢ j → Same j s (put_fd s fd f)
put_fd-keeps j fd f s ne = get_or-set_ne s.fds fd j f cleared_fd ne

-- A call on one descriptor changes at most that one.
abbrev pub Acts : ℕ → Files → Files → Type 0
Acts fd s s' = (s'.fds ≡ s.fds) ⊎ ((f : Fd) × (s'.fds ≡ set s.fds fd f))

pub Acts-keeps : (j fd : ℕ) (s s' : Files) → fd ≢ j → Acts fd s s' → Same j s s'
Acts-keeps j fd s s' ne (inl e) = ap (λ fds. get_or fds j cleared_fd) e
Acts-keeps j fd s s' ne (inr (f, e)) =
    ap (λ fds. get_or fds j cleared_fd) e ∙ get_or-set_ne s.fds fd j f cleared_fd ne

pub vfs_close-Acts : (fd : ℕ) (s : Files) → Acts fd s (vfs_close fd s).1
unfolding vfs_close
vfs_close-Acts fd s = closed _ (get_fd-Handle fd s)
  where
    closed :
        (o : Option ℕ)
        → Handle fd s o
        → Acts fd s
            (elim o as (λ x. Bool × Files) [
              | none ↦ (false, s)
              | some i ↦ (true, put_fd s i (record (fd_slot s i) { used = false }))
            ]).1
    closed none h = inl refl
    closed (some i) (open_fd lt used) = inr (_, refl)

-- Where a successful seek puts the cursor.
pub data SeekCase (fd : ℕ) (s : Files) : Option ℕ × Files → Type 0 where
  no_seek : SeekCase fd s (none, s)
  sought :
      (p : ℕ)
      → p < 2 ^ 31
      → fd < vfs_fd_max
      → (fd_slot s fd).used ≡ true
      → SeekCase fd s (some p, put_fd s fd (record (fd_slot s fd) { off = p }))

seek_to-SeekCase :
    (fd : ℕ) (o : Option ℕ) (offset : ℕ) (s : Files)
    → fd < vfs_fd_max
    → (fd_slot s fd).used ≡ true
    → SeekCase fd s (seek_to fd o offset s)
unfolding seek_to
seek_to-SeekCase fd none offset s lt used = no_seek
seek_to-SeekCase fd (some base) offset s lt used =
    elim (Bool-cases (is_negative (add32 base offset))) [
      | inl bad ↦ rw bad no_seek
      | inr fine ↦ rw fine (sought _ (ground arith) lt used)
    ]

-- A seek either fails and changes nothing, or its result is not negative and is the new cursor of the
-- descriptor, which is open, with the other fields, the other descriptors and the files as before.
pub vfs_seek-cases :
    (fd offset whence : ℕ) (s : Files) → SeekCase fd s (vfs_seek fd offset whence s)
unfolding vfs_seek
vfs_seek-cases fd offset whence s = moved _ (get_fd-Handle fd s)
  where
    moved :
        (o : Option ℕ)
        → Handle fd s o
        → SeekCase fd s (elim o as (λ x. Option ℕ × Files) [
          | none ↦ (none, s)
          | some i ↦ seek_to i (seek_base whence (fd_slot s i) s) offset s
        ])
    moved none h = no_seek
    moved (some i) (open_fd lt used) = seek_to-SeekCase fd _ offset s lt used

-- What a read through a descriptor gives: nothing, or the bytes that the file system reads at the
-- cursor, which moves by their number.
pub data ReadCase (fd n : ℕ) (s : Files) : Option (List ℕ) × Files → Type 0 where
  not_open : ReadCase fd n s (none, s)
  failed :
      (fs : Fs)
      → fs_file_read_at (fd_slot s fd).name n (fd_slot s fd).off s.fs ≡ (none, fs)
      → ReadCase fd n s (none, record s { fs = fs })
  advanced :
      (bytes : List ℕ) (fs : Fs)
      → fs_file_read_at (fd_slot s fd).name n (fd_slot s fd).off s.fs ≡ (some bytes, fs)
      → ReadCase fd n s
          (some bytes, put_fd (record s { fs = fs }) fd (advance (length bytes) (fd_slot s fd)))

-- A read through a descriptor asks the file system for the bytes at the cursor, and moves the cursor
-- by as many bytes as it got; if the descriptor is not open, or the read fails, the table is as before.
pub vfs_read-cases : (fd n : ℕ) (s : Files) → ReadCase fd n s (vfs_read fd n s)
unfolding vfs_read
vfs_read-cases fd n s = reading _ (get_fd-Handle fd s)
  where
    got :
        (x : Option (List ℕ) × Fs)
        → fs_file_read_at (fd_slot s fd).name n (fd_slot s fd).off s.fs ≡ x
        → ReadCase fd n s (elim x.0 as (λ y. Option (List ℕ) × Files) [
          | none ↦ (none, record s { fs = x.1 })
          | some bytes ↦ (
            some bytes,
            put_fd (record s { fs = x.1 }) fd (advance (length bytes) (fd_slot s fd)),
          )
        ])
    got (none, fs) e = failed fs e
    got (some bytes, fs) e = advanced bytes fs e

    reading :
        (o : Option ℕ)
        → Handle fd s o
        → ReadCase fd n s (elim o as (λ y. Option (List ℕ) × Files) [
          | none ↦ (none, s)
          | some i ↦
              let (r, fs') = fs_file_read_at (fd_slot s i).name n (fd_slot s i).off s.fs in
              elim r as (λ y. Option (List ℕ) × Files) [
                | none ↦ (none, record s { fs = fs' })
                | some bytes ↦ (
                  some bytes,
                  put_fd (record s { fs = fs' }) i (advance (length bytes) (fd_slot s i)),
                )
              ]
        ])
    reading none h = not_open
    reading (some i) (open_fd lt used) = got _ refl
