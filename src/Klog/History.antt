-- ===== src/Klog/History.antt =====
-- What a reader of the log sees, against the history of the bytes that were pushed.
use stink_os.Base.{
  ℕ, zero, suc, ◌+◌, ◌-◌, ◌%◌, ◌≤◌, ◌<◌, ◌≡◌, refl, ◌∙◌, sym, ap, ◌≢◌, List, [], ◌∷◌, ◌++◌, length,
  drop, min, arith, length-append, length-set, drop_all, drop-drop, drop-append_le, set, Bool-cases,
  ltb, inl, inr, length-replicate, append-nil, append_assoc, get_or,
}
use stink_os.Base.Ring.{window, window_mod, window-set_end, drop-window}
use stink_os.Klog.{Klog, klog_size, boot, klog_push, klog_read, copy_out}

-- The log after the bytes of `xs` are pushed in order.
pub push_all : List ℕ → Klog → Klog
push_all [] k = k
push_all (x ∷ xs) k = push_all xs (klog_push x k)

-- The last `n` bytes of a history.
abbrev pub last_bytes : ℕ → List ℕ → List ℕ
last_bytes n xs = drop (length xs - n) xs

-- The ring holds the end of the history `xs`, which ends just before `head`.
pub record Holds (xs : List ℕ) (k : Klog) : Type 0 where
  pub size : length k.ring ≡ klog_size
  pub at : k.head ≡ length xs % klog_size
  pub counted : k.total ≡ min klog_size (length xs)
  pub stored : window klog_size k.ring (length xs - k.total) k.total ≡ drop (length xs - k.total) xs

boot-Holds : Holds [] boot
unfolding boot window
boot-Holds = record {
  size = length-replicate klog_size 0;
  at = refl;
  counted = refl;
  stored = refl;
}

-- A window that ends a history still does without its first `m` bytes.
suffix_window :
    (ring : List ℕ) (p m n : ℕ) (xs : List ℕ)
    → window klog_size ring p (m + n) ≡ drop p xs
    → window klog_size ring (p + m) n ≡ drop (p + m) xs
suffix_window ring p m n xs e =
    sym (drop-window klog_size ring p m n) ∙ ap (drop m) e ∙ drop-drop p m xs

push-stored :
    (ring : List ℕ) (head x n : ℕ) (xs : List ℕ)
    → length ring ≡ klog_size
    → head ≡ length xs % klog_size
    → n < klog_size
    → n ≤ length xs
    → window klog_size ring (length xs - n) n ≡ drop (length xs - n) xs
    → window klog_size (set ring head x) (length xs - n) (n + 1)
      ≡ drop (length xs - n) (xs ++ (x ∷ []))
push-stored ring head x n xs size at room le e =
    window-set_end klog_size ring head x (length xs - n) n (omega arith) room (at ∙ position)
    ∙ ap (λ ys. ys ++ (x ∷ [])) e
    ∙ sym (drop-append_le (length xs - n) xs (x ∷ []) (omega arith))
  where
    position : length xs % klog_size ≡ (length xs - n + n) % klog_size
    position = ap (λ p. p % klog_size) (omega arith)

push-stored_full :
    (ring : List ℕ) (head x t : ℕ) (xs : List ℕ)
    → length ring ≡ klog_size
    → head ≡ length xs % klog_size
    → t ≡ klog_size
    → t ≤ length xs
    → window klog_size ring (length xs - t) t ≡ drop (length xs - t) xs
    → window klog_size (set ring head x) (length (xs ++ (x ∷ [])) - t) t
      ≡ drop (length (xs ++ (x ∷ [])) - t) (xs ++ (x ∷ []))
push-stored_full ring head x zero xs size at full le e = absurd (omega arith)
push-stored_full ring head x (suc n) xs size at full le e =
    rw (start, count)
      (push-stored ring head x n xs size at (omega arith) (omega arith)
        (rw (sym next) (suffix_window ring (length xs - suc n) 1 n xs (rw (sym one_more) e))))
  where
    start : length (xs ++ (x ∷ [])) - suc n ≡ length xs - n
    start = omega (arith, length-append xs (x ∷ []))

    next : length xs - suc n + 1 ≡ length xs - n
    next = omega arith

    count : suc n ≡ n + 1
    count = omega arith

    one_more : suc n ≡ 1 + n
    one_more = omega arith

klog_push-stored :
    (x : ℕ) (xs : List ℕ) (k : Klog)
    → Holds xs k
    → window klog_size
        (klog_push x k).ring
        (length (xs ++ (x ∷ [])) - (klog_push x k).total)
        (klog_push x k).total
      ≡ drop (length (xs ++ (x ∷ [])) - (klog_push x k).total) (xs ++ (x ∷ []))
unfolding klog_push
klog_push-stored x xs k h = elim (Bool-cases (ltb k.total klog_size)) [
  | inl room ↦
      rw (room, grown k.total)
        (push-stored k.ring k.head x k.total xs h.size h.at (ground arith) (omega arith) h.stored)
  | inr full ↦ rw full (
      push-stored_full k.ring k.head x k.total xs h.size h.at (ground arith) (omega arith) h.stored)
]
  where
    grown : (n : ℕ) → length (xs ++ (x ∷ [])) - (n + 1) ≡ length xs - n
    grown n = omega (arith, length-append xs (x ∷ []))

klog_push-Holds :
    (x : ℕ) (xs : List ℕ) (k : Klog) → Holds xs k → Holds (xs ++ (x ∷ [])) (klog_push x k)
unfolding klog_push
klog_push-Holds x xs k h = record {
  size = length-set k.ring k.head x ∙ h.size;
  at = omega (arith, length-append xs (x ∷ []), h.at);
  counted = ground (arith, length-append xs (x ∷ []), h.counted);
  stored = klog_push-stored x xs k h;
}

push_all-Holds : (ys xs : List ℕ) (k : Klog) → Holds xs k → Holds (xs ++ ys) (push_all ys k)
unfolding push_all
push_all-Holds [] xs k h = rw append-nil h
push_all-Holds (y ∷ ys) xs k h =
    rw append_assoc at
      (push_all-Holds ys (xs ++ (y ∷ [])) (klog_push y k) (klog_push-Holds y xs k h))

copy_out-eq-window :
    (ring : List ℕ) (start left i : ℕ)
    → copy_out ring start left i ≡ window klog_size ring (start + i) left
unfolding copy_out window
copy_out-eq-window ring start zero i = refl
copy_out-eq-window ring start (suc left) i =
    ap (λ ys. get_or ring ((start + i) % klog_size) 0 ∷ ys)
      (copy_out-eq-window ring start left (i + 1) ∙ ap (λ p. window klog_size ring p left) shift)
  where
    shift : start + (i + 1) ≡ start + i + 1
    shift = omega arith

-- The bytes copied from a log that holds `xs` end that history.
copy_out-last :
    (avail : ℕ) (xs : List ℕ) (k : Klog)
    → Holds xs k
    → avail ≤ k.total
    → copy_out k.ring ((k.head + klog_size - avail) % klog_size) avail 0 ≡ last_bytes avail xs
copy_out-last avail xs k h le =
    copy_out-eq-window k.ring _ avail 0
    ∙ window_mod klog_size k.ring _ (length xs - avail) avail (omega (arith, h.at, h.counted))
    ∙ rw (sym start) (
        suffix_window k.ring (length xs - k.total) (k.total - avail) avail xs
          (rw (sym whole) h.stored))
  where
    start : length xs - k.total + (k.total - avail) ≡ length xs - avail
    start = omega (arith, h.counted)

    whole : k.total ≡ k.total - avail + avail
    whole = omega arith

klog_read-Holds :
    (out cap : ℕ) (xs : List ℕ) (k : Klog)
    → Holds xs k
    → out ≢ 0
    → klog_read out cap k ≡ last_bytes (min cap (min klog_size (length xs))) xs
unfolding klog_read
klog_read-Holds out cap xs k h valid = ground (
  arith,
  copy_out-last cap xs k h,
  copy_out-last k.total xs k h,
  drop_all (length xs - min cap (min klog_size (length xs))) xs,
)

-- Whatever bytes `xs` the kernel has logged since boot, a read into a buffer of `cap` bytes gives
-- the last of them, in order: as many as the buffer, the ring and the history have room for.
pub klog_read-push_all :
    (xs : List ℕ) (out cap : ℕ)
    → out ≢ 0
    → klog_read out cap (push_all xs boot) ≡ last_bytes (min cap (min klog_size (length xs))) xs
klog_read-push_all xs out cap valid =
    klog_read-Holds out cap xs (push_all xs boot) (push_all-Holds xs [] boot boot-Holds) valid
