-- ===== src/Klog/Tests.antt =====
-- The kernel log on concrete input.
use stink_os.Base.{◌≡◌, refl, [], ◌∷◌, arith}
use stink_os.Klog.{Klog, boot, klog_push, klog_read, copy_out}
use stink_os.Klog.History.{push_all, klog_read-push_all}

abbrev small : Klog
small = record { ring = 4 ∷ 5 ∷ 6 ∷ 0 ∷ []; head = 3; total = 3 }

read_two : klog_read 1 2 small ≡ 5 ∷ 6 ∷ []
unfolding klog_read copy_out
read_two = refl

push_moves_head : (klog_push 7 small).ring ≡ 4 ∷ 5 ∷ 6 ∷ 7 ∷ []
unfolding klog_push
push_moves_head = refl

klog_read-push_all_example : klog_read 0x500000 2 (push_all (4 ∷ 5 ∷ 6 ∷ []) boot) ≡ 5 ∷ 6 ∷ []
klog_read-push_all_example = klog_read-push_all (4 ∷ 5 ∷ 6 ∷ []) 0x500000 2 (omega arith)
