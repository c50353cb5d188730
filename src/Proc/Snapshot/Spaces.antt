-- ===== src/Proc/Snapshot/Spaces.antt =====
-- What the field width of `append_dec` in kernel/sys/proc.c does to the process list: the padding loop
-- does not count, so it fills the buffer.
use stink_os.Base.{
  ℕ, zero, suc, ◌+◌, ◌-◌, ◌/◌, ◌≤◌, ◌<◌, ◌≡◌, ◌∙◌, inl, inr, refl, sym, ap, subst, List, [], ◌∷◌,
  ◌++◌, Option, none, some, true, length, take, ltb, ◌==◌, if◌then◌else◌, arith, take_all,
  take-append_le, length-append, Bool-cases, append-nil, append_assoc, replicate, length-replicate,
}
use stink_os.Proc.{Proc, Procs, is_unused, proc_name_len}
use stink_os.Proc.Snapshot.{
  fill_spaces, append_dec_width, append_name, row_after_pid, process_row, process_rows,
  process_header, proc_snapshot, state_label,
}
use stink_os.Text.{has_room, put, append_str, codes, decimal, digits_from, backwards}
use stink_os.Text.Bound.{append_str-Writes, put-Writes, length-take-le}

-- A number below 100 has at most two digits.
digits_zero : (f : ℕ) → digits_from f 0 ≡ []
unfolding digits_from
digits_zero zero = refl
digits_zero (suc f) = refl

digits_one : (f v : ℕ) → v < 10 → length (digits_from f v) ≤ 1
unfolding digits_from
digits_one zero v lt = omega arith
digits_one (suc f) v lt = elim (Bool-cases (v == 0)) [
  | inl e ↦ rw e (omega arith)
  | inr e ↦ rw e (
      let none_left : v / 10 ≡ 0 = omega arith in
      omega (arith, ap length (ap (digits_from f) none_left ∙ digits_zero f)))
]

digits_two : (f v : ℕ) → v < 100 → length (digits_from f v) ≤ 2
unfolding digits_from
digits_two zero v lt = omega arith
digits_two (suc f) v lt = elim (Bool-cases (v == 0)) [
  | inl e ↦ rw e (omega arith)
  | inr e ↦ rw e (omega (arith, digits_one f (v / 10) (omega arith)))
]

length-backwards : (s acc : List ℕ) → length (backwards acc s) ≡ length acc + length s
length-backwards [] acc = omega arith
length-backwards (c ∷ s) acc = omega (arith, length-backwards s (c ∷ acc))

decimal-lt_three : (v : ℕ) → v < 100 → ltb (length (decimal v)) 3 ≡ true
unfolding decimal
decimal-lt_three v lt = elim (Bool-cases (v == 0)) [
  | inl e ↦ rw e refl
  | inr e ↦ rw e (ground (arith, length-backwards (digits_from 11 v) [], digits_two 11 v lt))
]

fill_spaces_lem :
    (left n : ℕ) (out : List ℕ)
    → n - length out ≤ left
    → length out ≤ n
    → fill_spaces left (suc n) out ≡ out ++ replicate (n - length out) b' '
unfolding fill_spaces replicate
fill_spaces_lem zero n out le fits =
    let e : n - length out ≡ 0 = omega arith in rw e (sym (append-nil out))
fill_spaces_lem (suc left) n out le fits = elim (Bool-cases (has_room (suc n) out)) [
  | inl room ↦
      let more : n - length out ≡ suc (n - length (out ++ (b' ' ∷ []))) =
        ground (arith, length-append out (b' ' ∷ [])) in
      rw (room, more)
        (fill_spaces_lem left n (out ++ (b' ' ∷ [])) (ground (arith, length-append out (b' ' ∷ [])))
            (ground (arith, length-append out (b' ' ∷ [])))
          ∙ append_assoc out (b' ' ∷ []) (replicate (n - length (out ++ (b' ' ∷ []))) b' '))
  | inr full ↦ let e : n - length out ≡ 0 = ground arith in rw (full, e) (sym (append-nil out))
]

-- A buffer with no room left is not written to any more.
module _ (n : ℕ) (out : List ℕ) (full : length out ≡ n) where
  append_str_full : (s : List ℕ) → append_str (suc n) out s ≡ out
  append_str_full s =
      append_str-Writes s n out (omega arith)
      ∙ take-append_le n out s (omega arith)
      ∙ take_all n out (omega arith)

  put_full : (c : ℕ) → put (suc n) out c ≡ out
  put_full c =
      put-Writes c n out (omega arith)
      ∙ take-append_le n out (c ∷ []) (omega arith)
      ∙ take_all n out (omega arith)

  fill_spaces_full : (left : ℕ) → fill_spaces left (suc n) out ≡ out
  unfolding replicate
  fill_spaces_full left =
      let e : n - length out ≡ 0 = omega arith in
      fill_spaces_lem left n out (omega arith) (omega arith)
      ∙ ap (λ k. out ++ replicate k b' ') e
      ∙ append-nil out

  append_dec_width_full : (v w : ℕ) → append_dec_width (suc n) out v w ≡ out
  unfolding append_dec_width
  append_dec_width_full v w = elim (Bool-cases (ltb (length (decimal v)) w)) [
    | inl e ↦ rw (e, fill_spaces_full (suc n)) (append_str_full (decimal v))
    | inr e ↦ rw e (append_str_full (decimal v))
  ]

  append_name_full : (left : ℕ) (name : List ℕ) → append_name left (suc n) out name ≡ out
  unfolding append_name
  append_name_full zero name = refl
  append_name_full (suc left) [] = refl
  append_name_full (suc left) (c ∷ name) = ground arith

  row_after_pid_full : (p : Proc) → row_after_pid (suc n) out p ≡ out
  unfolding row_after_pid
  row_after_pid_full p =
      rw
        (
          put_full b' ',
          append_str_full (codes " "),
          append_str_full (state_label p.state),
          put_full b' ',
          append_dec_width_full p.priority 3,
          put_full b' ',
          append_dec_width_full p.parent_pid 5,
          put_full b' ',
          append_name_full proc_name_len p.name,
        )
        (put_full b'\n')

  process_row_full : (p : Proc) → process_row (suc n) out p ≡ out
  unfolding process_row
  process_row_full p =
      ap (λ o. row_after_pid (suc n) o p) (append_dec_width_full p.pid 3) ∙ row_after_pid_full p

  process_rows_full : (l : List Proc) → process_rows (suc n) out l ≡ out
  unfolding process_rows
  process_rows_full [] = refl
  process_rows_full (p ∷ l) = elim (Bool-cases (is_unused p.state)) [
    | inl e ↦ rw e (process_rows_full l)
    | inr e ↦ rw (e, process_row_full p) (process_rows_full l)
  ]

-- The first process that the list shows.
unfoldable pub first_used : List Proc → Option Proc
first_used [] = none
first_used (p ∷ l) = if is_unused p.state then first_used l else some p

filled_full :
    (n : ℕ) (out : List ℕ) → length out ≤ n → length (out ++ replicate (n - length out) b' ') ≡ n
filled_full n out le = omega (
  arith,
  length-append out (replicate (n - length out) b' '),
  length-replicate {A = ℕ} (n - length out) b' ',
)

-- Writing a number of fewer digits than its field fills the buffer with blanks.
append_dec_width-fill :
    (n v w : ℕ) (out : List ℕ)
    → length out ≤ n
    → ltb (length (decimal v)) w ≡ true
    → append_dec_width (suc n) out v w ≡ out ++ replicate (n - length out) b' '
unfolding append_dec_width
append_dec_width-fill n v w out le narrow =
    let filled = fill_spaces_lem (suc n) n out (omega arith) le in
    rw (narrow, filled)
      (append_str_full n (out ++ replicate (n - length out) b' ') (filled_full n out le)
        (decimal v))

process_row-fill :
    (n : ℕ) (out : List ℕ) (p : Proc)
    → length out ≤ n
    → p.pid < 100
    → process_row (suc n) out p ≡ out ++ replicate (n - length out) b' '
unfolding process_row
process_row-fill n out p le small =
    ap (λ o. row_after_pid (suc n) o p)
      (append_dec_width-fill n p.pid 3 out le (decimal-lt_three p.pid small))
    ∙ row_after_pid_full n (out ++ replicate (n - length out) b' ') (filled_full n out le) p

process_rows-fill :
    (n : ℕ) (out : List ℕ) (l : List Proc) (p : Proc)
    → length out ≤ n
    → first_used l ≡ some p
    → p.pid < 100
    → process_rows (suc n) out l ≡ out ++ replicate (n - length out) b' '
unfolding process_rows first_used
process_rows-fill n out [] p le first small = cc
process_rows-fill n out (q ∷ l) p le first small = elim (Bool-cases (is_unused q.state)) [
  | inl e ↦ rw e (process_rows-fill n out l p le (ground arith) small)
  | inr e ↦
      let same : q ≡ p = ground arith in
      rw (e, process_row-fill n out q le (subst (λ x. x.pid < 100) (sym same) small))
        (process_rows_full n (out ++ replicate (n - length out) b' ') (filled_full n out le) l)
]

take-replicate : (n m c : ℕ) → n ≤ m → take n (replicate m c) ≡ replicate n c
unfolding replicate
take-replicate zero m c le = refl
take-replicate (suc n) zero c le = absurd (omega arith)
take-replicate (suc n) (suc m) c le = ap (λ l. c ∷ l) (take-replicate n m c (omega arith))

take-fill :
    (n m : ℕ) (h : List ℕ)
    → n ≤ m
    → take n h ++ replicate (n - length (take n h)) b' ' ≡ take n (h ++ replicate m b' ')
take-fill zero m h le = unfold replicate in refl
take-fill (suc n) m [] le =
    let e : suc n - 0 ≡ suc n = omega arith in
    ap (λ k. replicate k b' ') e ∙ sym (take-replicate (suc n) m b' ' le)
take-fill (suc n) m (x ∷ h) le =
    let e : suc n - suc (length (take n h)) ≡ n - length (take n h) = omega arith in
    ap (λ k. x ∷ (take n h ++ replicate k b' ')) e ∙ ap (λ l. x ∷ l) (take-fill n m h (omega arith))

-- The list shows no process at all once the first one in use has a pid below 100: the field is padded by
-- a loop that does not count, so that the text is the header line and then blanks up to the last byte,
-- whatever the table holds.
pub proc_snapshot-blank :
    (cap : ℕ) (s : Procs) (p : Proc)
    → first_used s.table ≡ some p
    → p.pid < 100
    → proc_snapshot cap s ≡ take (cap - 1) (process_header ++ replicate (cap - 1) b' ')
unfolding proc_snapshot
proc_snapshot-blank zero s p first small = refl
proc_snapshot-blank (suc n) s p first small =
    subst
      (λ k.
        process_rows (suc n) (append_str (suc n) [] process_header) s.table
        ≡ take k (process_header ++ replicate k b' '))
      (less n)
      (ap (λ o. process_rows (suc n) o s.table)
          (append_str-Writes process_header n [] (omega arith))
        ∙ process_rows-fill n (take n process_header) s.table p (length-take-le n process_header)
            first small
        ∙ take-fill n n process_header (omega arith))
  where
    less : (m : ℕ) → m ≡ suc m - 1
    less m = omega arith
