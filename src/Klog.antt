-- ===== src/Klog.antt =====
-- The kernel log ring of kernel/sys/klog.c. A pointer argument is its address, and 0 is NULL.
pub mod History
mod Tests
use stink_os.Base.{
  ℕ, zero, suc, ◌+◌, ◌-◌, ◌%◌, List, [], ◌∷◌, replicate, get_or, set, ltb, ◌==◌, ◌||◌,
  if◌then◌else◌,
}

-- `KLOG_SIZE`
abbrev pub klog_size : ℕ
klog_size = 8192

-- The static variables `ring`, `head` and `total`.
pub record Klog : Type 0 where
  pub ring : List ℕ
  pub head : ℕ
  pub total : ℕ

-- The zeroed variables at boot.
pub boot : Klog
boot = record { ring = replicate klog_size 0; head = 0; total = 0 }

pub klog_push : ℕ → Klog → Klog
klog_push c k = record k {
  ring = set k.ring k.head c;
  head = (k.head + 1) % klog_size;
  total = if ltb k.total klog_size then k.total + 1 else k.total;
}

-- The copy loop of `klog_read`, with `left` bytes to go from index `i` on.
pub copy_out : List ℕ → ℕ → ℕ → ℕ → List ℕ
copy_out ring start zero i = []
copy_out ring start (suc left) i =
    get_or ring ((start + i) % klog_size) 0 ∷ copy_out ring start left (i + 1)

-- The bytes stored through `out`; their number is the value that is returned.
pub klog_read : ℕ → ℕ → Klog → List ℕ
klog_read out cap k =
    if out == 0 || cap == 0 || k.total == 0
    then []
    else let avail = if ltb cap k.total then cap else k.total in
      copy_out k.ring ((k.head + klog_size - avail) % klog_size) avail 0
