-- ===== src/Vfs/Table.antt =====
-- The descriptor table that every process owns: `struct vfs_fd` of kernel/fs/vfs.h and
-- `vfs_fd_table_clear` of kernel/fs/vfs.c. A name is the list of its 16 bytes.
use stink_os.Base.{ℕ, List, map, replicate, Bool, false}

-- `VFS_FD_MAX` and the length of a file name
abbrev pub vfs_fd_max : ℕ
vfs_fd_max = 16

abbrev pub name_len : ℕ
name_len = 16

pub record Fd : Type 0 where
  pub used : Bool
  pub name : List ℕ
  pub off : ℕ

abbrev pub cleared_fd : Fd
cleared_fd = record { used = false; name = replicate name_len 0; off = 0 }

-- Every slot of the table is reset. (The caller never passes NULL.)
unfoldable pub vfs_fd_table_clear : List Fd → List Fd
vfs_fd_table_clear t = map (λ (fd : Fd). cleared_fd) t
