-- ===== src/Vfs/Tests.antt =====
-- The descriptor layer on concrete input: two descriptors on a mounted volume without files.
use stink_os.Base.{ℕ, ◌≢◌, refl, [], ◌∷◌, some, true, false, replicate, arith}
use stink_os.Vfs.Files.{Files, opened_fd, vfs_open, vfs_read, vfs_seek, vfs_write}
use stink_os.Vfs.Cursor.{Same}
use stink_os.Vfs.Isolation.{done, then_call, opens, reads, seeks, writes, Calls-Same}
use stink_os.Fs.{File, Mount, stinkfs_magic, fs_max_files}
use stink_os.Fs.Mounts.{Fs, no_mount}

abbrev no_file : File
no_file = record { name = replicate 16 0; start = 0; size = 0 }

abbrev volume : Mount
volume = record {
  present = true;
  drive = 0;
  dir_lba = 512;
  data_lba = 516;
  data_end = 200516;
  dir = record {
    magic = stinkfs_magic;
    count = 0;
    next_free = 516;
    files = replicate fs_max_files no_file;
    unused_bytes = replicate 116 0;
  };
}

abbrev one_drive : Fs
one_drive = record {
  mounts = volume ∷ no_mount ∷ [];
  ata = record { disk = λ d l. replicate 512 0; faults = [] };
}

abbrev two_open : Files
two_open = record {
  fds =
      opened_fd (b'a' ∷ [])
      ∷ opened_fd (b'b' ∷ [])
      ∷ record { used = false; name = replicate 16 0; off = 0 }
      ∷ [];
  fs = one_drive;
}

zero_ne_one : ◌≢◌ {A = ℕ} 0 1
zero_ne_one e = omega (arith, e)

-- An open that creates a file, a write to the first descriptor, a seek and a read on it.
abbrev made : Files
made = (vfs_open (b'c' ∷ []) 1 two_open).1

abbrev filled : Files
filled = (vfs_write 0 (b'x' ∷ b'y' ∷ []) made).1

abbrev sought : Files
sought = (vfs_seek 0 1 0 filled).1

Calls-Same_example :
    Same 1 two_open (vfs_read 0 4 sought).1
    × ((vfs_open (b'd' ∷ []) 1 (vfs_read 0 4 sought).1).0 ≢ some 1)
Calls-Same_example =
    Calls-Same (b'd' ∷ []) 1
      (then_call
        (then_call
          (then_call (then_call done (opens (b'c' ∷ []) 1))
            (writes 0 (b'x' ∷ b'y' ∷ []) zero_ne_one))
          (seeks 0 1 0 zero_ne_one))
        (reads 0 4 zero_ne_one))
      refl
