-- ===== src/Proc/Snapshot.antt =====
-- The process list that `proc_snapshot` of kernel/sys/proc.c writes for `ps`.
pub mod Spaces
use stink_os.Base.{
  ℕ, zero, suc, ◌+◌, ◌-◌, ◌≤◌, ◌<◌, ◌≡◌, ◌∙◌, inl, inr, refl, sym, ap, subst, List, [], ◌∷◌, ◌++◌,
  Option, none, some, Bool, true, false, not, ◌&&◌, length, get_or, take, ltb, ◌==◌, if◌then◌else◌,
  arith, take_all, take-append_le, length-append, length-take, Bool-cases, append-nil, append_assoc,
  replicate, length-replicate,
}
use stink_os.Proc.{
  Proc, Procs, State, unused, embryo, ready, running, sleeping, zombie, is_unused, proc_name_len,
}
use stink_os.Text.{has_room, put, append_str, codes, decimal}
use stink_os.Text.Bound.{append_str-Writes, length-take-le}

pub state_label : State → List ℕ
state_label unused = codes "FREE"
state_label embryo = codes "EMBR"
state_label ready = codes "READ"
state_label running = codes "RUN "
state_label sleeping = codes "SLEP"
state_label zombie = codes "ZOMB"

-- `while (n < width && off + 1 < cap) out[off++] = ' '`, in which `n` does not change, so that only the
-- buffer's end stops it: `left` is the fuel, and the buffer's size is enough.
pub fill_spaces : ℕ → ℕ → List ℕ → List ℕ
fill_spaces zero cap out = out
fill_spaces (suc left) cap out =
    let rest = fill_spaces left cap (out ++ (b' ' ∷ [])) in if has_room cap out then rest else out

-- `append_dec` of proc.c, with its field width
pub append_dec_width : ℕ → List ℕ → ℕ → ℕ → List ℕ
unfolding fill_spaces append_str decimal
append_dec_width cap out v width =
    let digits = decimal v in
    append_str cap (if ltb (length digits) width then fill_spaces cap cap out else out) digits

-- The name, up to its NUL or its last byte.
pub append_name : ℕ → ℕ → List ℕ → List ℕ → List ℕ
append_name zero cap out name = out
append_name (suc left) cap out [] = out
append_name (suc left) cap out (c ∷ name) =
    let rest = append_name left cap (out ++ (c ∷ [])) name in
    if not (c == 0) && has_room cap out then rest else out

-- The rest of a row, after its pid.
pub row_after_pid : ℕ → List ℕ → Proc → List ℕ
row_after_pid cap out p =
    let pid = put cap out b' ' in
    let state =
      put cap (append_str cap (append_str cap pid (codes " ")) (state_label p.state)) b' ' in
    let priority = put cap (append_dec_width cap state p.priority 3) b' ' in
    let parent = put cap (append_dec_width cap priority p.parent_pid 5) b' ' in
    put cap (append_name proc_name_len cap parent p.name) b'\n'

pub process_row : ℕ → List ℕ → Proc → List ℕ
process_row cap out p = row_after_pid cap (append_dec_width cap out p.pid 3) p

pub process_rows : ℕ → List ℕ → List Proc → List ℕ
process_rows cap out [] = out
process_rows cap out (p ∷ l) =
    process_rows cap (if is_unused p.state then out else process_row cap out p) l

abbrev pub process_header : List ℕ
process_header = codes "PID  STATE PRIO PARENT NAME\n"

-- What `proc_snapshot` has written before the final NUL; it returns the length. A null buffer is one of
-- size 0.
pub proc_snapshot : ℕ → Procs → List ℕ
unfolding process_rows append_str
proc_snapshot zero s = []
proc_snapshot (suc n) s = process_rows (suc n) (append_str (suc n) [] process_header) s.table

-- A writer that stays in a buffer of `n + 1` bytes, with room for the NUL.
abbrev Bounded : (ℕ → List ℕ → List ℕ) → Type 0
Bounded f = (n : ℕ) (out : List ℕ) → length out ≤ n → length (f (suc n) out) ≤ n

put-Bounded : (c : ℕ) → Bounded (λ cap out. put cap out c)
unfolding put
put-Bounded c n out le = ground (arith, length-append out (c ∷ []))

append_str-Bounded : (s : List ℕ) → Bounded (λ cap out. append_str cap out s)
append_str-Bounded s n out le =
    omega (arith, ap length (append_str-Writes s n out le), length-take-le n (out ++ s))

fill_spaces-Bounded : (left : ℕ) → Bounded (λ cap out. fill_spaces left cap out)
unfolding fill_spaces
fill_spaces-Bounded zero n out le = le
fill_spaces-Bounded (suc left) n out le = elim (Bool-cases (has_room (suc n) out)) [
  | inl e ↦ rw e (
      fill_spaces-Bounded left n (out ++ (b' ' ∷ []))
        (ground (arith, length-append out (b' ' ∷ []))))
  | inr e ↦ rw e le
]

append_dec_width-Bounded : (v w : ℕ) → Bounded (λ cap out. append_dec_width cap out v w)
unfolding append_dec_width
append_dec_width-Bounded v w n out le = elim (Bool-cases (ltb (length (decimal v)) w)) [
  | inl e ↦ rw e (append_str-Bounded (decimal v) n _ (fill_spaces-Bounded (suc n) n out le))
  | inr e ↦ rw e (append_str-Bounded (decimal v) n out le)
]

append_name-Bounded :
    (left : ℕ) (name : List ℕ) → Bounded (λ cap out. append_name left cap out name)
unfolding append_name
append_name-Bounded zero name n out le = le
append_name-Bounded (suc left) [] n out le = le
append_name-Bounded (suc left) (c ∷ name) n out le =
    elim (Bool-cases (not (c == 0) && has_room (suc n) out)) [
      | inl e ↦ rw e (
          append_name-Bounded left name n (out ++ (c ∷ []))
            (ground (arith, length-append out (c ∷ []))))
      | inr e ↦ rw e le
    ]

process_row-Bounded : (p : Proc) → Bounded (λ cap out. process_row cap out p)
unfolding process_row row_after_pid
process_row-Bounded p n out le =
    let a = put-Bounded b' ' n _ (append_dec_width-Bounded p.pid 3 n out le) in
    let b = append_str-Bounded (codes " ") n _ a in
    let c = put-Bounded b' ' n _ (append_str-Bounded (state_label p.state) n _ b) in
    let d = put-Bounded b' ' n _ (append_dec_width-Bounded p.priority 3 n _ c) in
    let e = put-Bounded b' ' n _ (append_dec_width-Bounded p.parent_pid 5 n _ d) in
    put-Bounded b'\n' n _ (append_name-Bounded proc_name_len p.name n _ e)

process_rows-Bounded : (l : List Proc) → Bounded (λ cap out. process_rows cap out l)
unfolding process_rows
process_rows-Bounded [] n out le = le
process_rows-Bounded (p ∷ l) n out le = elim (Bool-cases (is_unused p.state)) [
  | inl e ↦ rw e (process_rows-Bounded l n out le)
  | inr e ↦ rw e (process_rows-Bounded l n _ (process_row-Bounded p n out le))
]

-- The list never overruns the buffer: it leaves the last byte for the NUL.
pub proc_snapshot_bound : (cap : ℕ) (s : Procs) → length (proc_snapshot cap s) ≤ cap - 1
unfolding proc_snapshot
proc_snapshot_bound zero s = omega arith
proc_snapshot_bound (suc n) s =
    omega (
      arith,
      process_rows-Bounded s.table n _ (append_str-Bounded process_header n [] (omega arith)),
    )
