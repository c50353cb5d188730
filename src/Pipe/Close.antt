-- ===== src/Pipe/Close.antt =====
-- `pipe_close`: the two handles of a pipe.
use stink_os.Base.{
  ℕ, ◌*◌, ◌<◌, ◌≡◌, ◌≢◌, refl, ap, ◌∙◌, ℤ, pos, negsuc, List, Bool, true, false, length, set, leb,
  arith, length-set, Bool-cases, inl, inr, some, none, get_or-set_self, get_or-set_ne, ℕ_discrete,
}
use stink_os.Pipe.{
  Pipe, pipe_max, slot, closed_slot, pipe_close, drop_end, get_pipe, end_read, end_write,
  make_handle, handle_idx, handle_end,
}
use stink_os.Pipe.Buffer.{IsValid, contents}
use stink_os.Pipe.Pool.{PoolValid, set-PoolValid, get_pipe_of_used}

pub pipe_close-eq-set :
    (i e : ℕ) (pool : List Pipe)
    → i < pipe_max
    → e < 2
    → (slot pool i).used ≡ true
    → pipe_close (pos (make_handle i e)) pool ≡ (true, set pool i (drop_end e (slot pool i)))
unfolding pipe_close
pipe_close-eq-set i e pool lt end_bit u = rw (idx, bit, small, u)
  where
    idx : handle_idx (make_handle i e) ≡ i
    idx = omega arith

    bit : handle_end (make_handle i e) ≡ e
    bit = omega arith

    small : leb (pipe_max * 2) (make_handle i e) ≡ false
    small = ground arith

get_pipe_of_unused :
    (i e : ℕ) (pool : List Pipe)
    → e < 2
    → (slot pool i).used ≡ false
    → get_pipe (pos (make_handle i e)) e pool ≡ none
unfolding get_pipe
get_pipe_of_unused i e pool end_bit u = rw (idx, u) (ground arith)
  where
    idx : handle_idx (make_handle i e) ≡ i
    idx = omega arith

drop_end-contents : (e : ℕ) (p : Pipe) → contents (drop_end e p) ≡ contents p
unfolding drop_end
drop_end-contents e p = refl

drop_end_first :
    (p : Pipe)
    → p.used ≡ true
    → p.readers ≡ 1
    → p.writers ≡ 1
    → ((drop_end 0 p).used ≡ true) × ((drop_end 1 (drop_end 0 p)).used ≡ false)
unfolding drop_end
drop_end_first p u r w = ground arith

-- Closing the two handles of an open pipe, the read handle first: after one the slot is still in
-- use, with its bytes, and both handles still pass the check, the closed one included; after both
-- neither does, and the slot can be allocated again. Other slots do not change.
pub pipe_close_both :
    (i : ℕ) (pool : List Pipe)
    → i < length pool
    → i < pipe_max
    → (slot pool i).used ≡ true
    → (slot pool i).readers ≡ 1
    → (slot pool i).writers ≡ 1
    → let (done, once) = pipe_close (pos (make_handle i end_read)) pool in
      let (done', twice) = pipe_close (pos (make_handle i end_write)) once in
      (done ≡ true)
      × (get_pipe (pos (make_handle i end_read)) end_read once ≡ some i)
      × (get_pipe (pos (make_handle i end_write)) end_write once ≡ some i)
      × (contents (slot once i) ≡ contents (slot pool i))
      × (done' ≡ true)
      × (get_pipe (pos (make_handle i end_read)) end_read twice ≡ none)
      × (get_pipe (pos (make_handle i end_write)) end_write twice ≡ none)
      × ((j : ℕ) → i ≢ j → slot twice j ≡ slot pool j)
pipe_close_both i pool inside lt u r w =
    rw
      (
        pipe_close-eq-set i 0 pool lt (omega arith) u,
        pipe_close-eq-set i 1 once lt (omega arith) u_once,
      )
      (
        refl,
        get_pipe_of_used i 0 once lt (omega arith) u_once,
        get_pipe_of_used i 1 once lt (omega arith) u_once,
        ap contents there ∙ drop_end-contents 0 (slot pool i),
        refl,
        get_pipe_of_unused i 0 _ (omega arith) unused,
        get_pipe_of_unused i 1 _ (omega arith) unused,
        λ j ne. get_or-set_ne once i j _ closed_slot ne ∙ get_or-set_ne pool i j _ closed_slot ne,
      )
  where
    once : List Pipe
    once = set pool i (drop_end 0 (slot pool i))

    there : slot once i ≡ drop_end 0 (slot pool i)
    there = get_or-set_self pool i _ closed_slot inside

    half : (drop_end 0 (slot pool i)).used ≡ true
    half = (drop_end_first (slot pool i) u r w).0

    u_once : (slot once i).used ≡ true
    u_once = ap (λ p. p.used) there ∙ half

    unused : (slot (set once i (drop_end 1 (slot once i))) i).used ≡ false
    unused =
        ap (λ p. p.used) (get_or-set_self once i _ closed_slot (rw length-set inside))
        ∙ ap (λ p. (drop_end 1 p).used) there
        ∙ (drop_end_first (slot pool i) u r w).1

drop_end-IsValid : (e : ℕ) {p : Pipe} → IsValid p → IsValid (drop_end e p)
unfolding drop_end
drop_end-IsValid e v = ground arith

data CloseCase (pool : List Pipe) : Bool × List Pipe → Type 0 where
  refused : CloseCase pool (false, pool)
  closed : (i e : ℕ) → i < pipe_max → CloseCase pool (true, set pool i (drop_end e (slot pool i)))

pipe_close-cases : (h : ℤ) (pool : List Pipe) → CloseCase pool (pipe_close h pool)
unfolding pipe_close
pipe_close-cases (negsuc n) pool = refused
pipe_close-cases (pos h) pool = elim (Bool-cases (leb (pipe_max * 2) h)) [
  | inl out ↦ rw out refused
  | inr inside ↦ elim (Bool-cases (slot pool (handle_idx h)).used) [
    | inl u ↦ rw (inside, u) (closed (handle_idx h) (handle_end h) (ground arith))
    | inr u ↦ rw (inside, u) refused
  ]
]

CloseCase-keeps :
    {pool : List Pipe} {r : Bool × List Pipe}
    → PoolValid pool
    → CloseCase pool r
    → PoolValid r.1 × ((i : ℕ) → contents (slot r.1 i) ≡ contents (slot pool i))
CloseCase-keeps v refused = (v, λ i. refl)
CloseCase-keeps {pool} v (closed i e lt) = (
  set-PoolValid i _ v lt (drop_end-IsValid e (v.each i lt)),
  λ j. elim (ℕ_discrete i j) [
    | yes q ↦ rw (← q) (
        ap contents (get_or-set_self pool i _ closed_slot (rw v.slots lt))
        ∙ drop_end-contents e (slot pool i))
    | no ne ↦ ap contents (get_or-set_ne pool i j _ closed_slot ne)
  ],
)

-- Closing any handle at all keeps the pool valid and changes the bytes of no slot.
pub pipe_close_keeps :
    (h : ℤ) {pool : List Pipe}
    → PoolValid pool
    → PoolValid (pipe_close h pool).1
      × ((i : ℕ) → contents (slot (pipe_close h pool).1 i) ≡ contents (slot pool i))
pipe_close_keeps h {pool} v = CloseCase-keeps v (pipe_close-cases h pool)
