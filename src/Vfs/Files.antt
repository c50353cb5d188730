-- ===== src/Vfs/Files.antt =====
-- The descriptors of kernel/fs/vfs.c over the file system. The table is that of the running process.
-- An `int` argument or result is its 32-bit word, and `none` is -1; sums of the source that overflow
-- an `int` are taken to wrap.
use stink_os.Base.{
  ℕ, ◌+◌, ◌%◌, ◌^◌, List, [], ◌∷◌, Option, none, some, Bool, true, false, length, get_or, set, leb,
  ◌==◌, if◌then◌else◌, add32,
}
use stink_os.Vfs.Table.{Fd, vfs_fd_max, cleared_fd}
use stink_os.Fs.{copy16}
use stink_os.Fs.Mounts.{Fs, fs_file_size, fs_file_write, fs_file_read_at, fs_file_write_at}

pub record Files : Type 0 where
  pub fds : List Fd
  pub fs : Fs

abbrev pub fd_slot : Files → ℕ → Fd
fd_slot s i = get_or s.fds i cleared_fd

abbrev pub put_fd : Files → ℕ → Fd → Files
put_fd s i f = record s { fds = set s.fds i f }

-- The sign of a word read as an `int`.
abbrev pub is_negative : ℕ → Bool
is_negative w = leb (2 ^ 31) w

abbrev no_size : Option ℕ → Bool
no_size none = true
no_size (some size) = is_negative size

-- The descriptor that is in use under a number.
unfoldable pub get_fd : ℕ → Files → Option ℕ
get_fd fd s = if leb vfs_fd_max fd then none else if (fd_slot s fd).used then some fd else none

abbrev pub opened_fd : List ℕ → Fd
opened_fd name = record { used = true; name = copy16 16 0 name; off = 0 }

-- The search for a free slot from slot `i` on.
unfoldable pub open_from : ℕ → List ℕ → List Fd → Option ℕ × List Fd
open_from i name [] = (none, [])
open_from i name (f ∷ fds) =
    let (r, fds') = open_from (i + 1) name fds in
    if f.used then (r, f ∷ fds') else (some i, opened_fd name ∷ fds)

unfoldable pub open_slot : List ℕ → Files → Option ℕ × Files
open_slot name s = let (r, fds') = open_from 0 name s.fds in (r, record s { fds = fds' })

-- `O_CREATE` is bit 0 of the flags.
unfoldable pub vfs_open : List ℕ → ℕ → Files → Option ℕ × Files
vfs_open name flags s =
    let (ok, fs') = fs_file_write name [] s.fs in
    if no_size (fs_file_size name s.fs)
    then (if flags % 2 == 0
        then (none, s)
        else if ok
        then open_slot name (record s { fs = fs' })
        else (none, record s { fs = fs' }))
    else open_slot name s

unfoldable pub vfs_close : ℕ → Files → Bool × Files
vfs_close fd s = elim (get_fd fd s) [
  | none ↦ (false, s)
  | some i ↦ (true, put_fd s i (record (fd_slot s i) { used = false }))
]

abbrev pub advance : ℕ → Fd → Fd
advance n f = record f { off = add32 f.off n }

unfoldable pub vfs_read : ℕ → ℕ → Files → Option (List ℕ) × Files
vfs_read fd n s = elim (get_fd fd s) [
  | none ↦ (none, s)
  | some i ↦
      let (r, fs') = fs_file_read_at (fd_slot s i).name n (fd_slot s i).off s.fs in
      elim r [
        | none ↦ (none, record s { fs = fs' })
        | some bytes ↦
            (some bytes, put_fd (record s { fs = fs' }) i (advance (length bytes) (fd_slot s i)))
      ]
]

unfoldable pub vfs_write : ℕ → List ℕ → Files → Option ℕ × Files
vfs_write fd bytes s = elim (get_fd fd s) [
  | none ↦ (none, s)
  | some i ↦
      let (ok, fs') = fs_file_write_at (fd_slot s i).name bytes (fd_slot s i).off s.fs in
      if ok
      then (
        some (length bytes),
        put_fd (record s { fs = fs' }) i (advance (length bytes) (fd_slot s i)),
      )
      else (none, record s { fs = fs' })
]

-- `SEEK_SET`, `SEEK_CUR`, `SEEK_END`, and any other value.
unfoldable pub seek_base : ℕ → Fd → Files → Option ℕ
seek_base whence f s =
    if whence == 0
    then some 0
    else if whence == 1
    then some f.off
    else if whence == 2
    then (let size = fs_file_size f.name s.fs in if no_size size then none else size)
    else none

unfoldable pub seek_to : ℕ → Option ℕ → ℕ → Files → Option ℕ × Files
seek_to i none offset s = (none, s)
seek_to i (some base) offset s =
    let p = add32 base offset in
    if is_negative p then (none, s) else (some p, put_fd s i (record (fd_slot s i) { off = p }))

unfoldable pub vfs_seek : ℕ → ℕ → ℕ → Files → Option ℕ × Files
vfs_seek fd offset whence s = elim (get_fd fd s) [
  | none ↦ (none, s)
  | some i ↦ seek_to i (seek_base whence (fd_slot s i) s) offset s
]
