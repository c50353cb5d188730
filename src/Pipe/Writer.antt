-- ===== src/Pipe/Writer.antt =====
-- `pipe_write`: what a call does before it returns or sleeps.
use stink_os.Base.{
  dec_lt, ℕ, zero, suc, ◌+◌, ◌-◌, ◌≤◌, ◌<◌, ◌≡◌, ◌≢◌, ◌⊎◌, refl, sym, ap, ◌∙◌, ℤ, List, [], ◌∷◌,
  append-nil, length, set, take, drop, min, ltb, leb, arith, length-set, inl, inr, some,
  if◌then◌else◌, get_or-set_self, get_or-set_ne, length-take, length-drop,
}
use stink_os.Pipe.{
  Pipe, pipe_bufsz, slot, closed_slot, put_chunk, Write, no_reader, wrote, waiting, write_loop,
  write_open, pipe_write, get_pipe, end_write,
}
use stink_os.Pipe.Buffer.{IsValid, Appended, put_chunk-Appended}

-- The bytes that fit.
abbrev pub room : Pipe → ℕ
room p = pipe_bufsz - p.count

module _ (idx : ℕ) (written : ℕ) (pool : List Pipe) where
  write_loop_nil :
      (f : ℕ) (src : List ℕ)
      → length src ≡ 0
      → write_loop (suc f) idx src written pool ≡ (wrote written, pool)
  unfolding write_loop
  write_loop_nil f src e = ground arith

  write_loop_full :
      (f : ℕ) (src : List ℕ)
      → 0 < length src
      → (slot pool idx).count ≡ pipe_bufsz
      → 0 < (slot pool idx).readers
      → write_loop (suc f) idx src written pool ≡ (waiting idx src written, pool)
  unfolding write_loop
  write_loop_full f src some_left full reader = ground arith

  pub write_loop_closed :
      (f : ℕ) (src : List ℕ)
      → 0 < length src
      → (slot pool idx).readers ≡ 0
      → write_loop (suc f) idx src written pool ≡ (no_reader, pool)
  unfolding write_loop
  write_loop_closed f src some_left reader = ground arith

  write_loop_some :
      (f n : ℕ) (src : List ℕ)
      → 0 < length src
      → (slot pool idx).count < pipe_bufsz
      → 0 < (slot pool idx).readers
      → n ≡ min (room (slot pool idx)) (length src)
      → write_loop (suc f) idx src written pool
        ≡ write_loop f idx
            (drop n src)
            (written + n)
            (set pool idx (put_chunk (take n src) (slot pool idx)))
  unfolding write_loop
  write_loop_some f n src some_left space reader e = rw chunk (ground arith)
    where
      chunk : n ≡ (
          if ltb (pipe_bufsz - (slot pool idx).count) (length src)
          then pipe_bufsz - (slot pool idx).count
          else length src)
      chunk = ground arith

-- The outcome of writing `src` to slot `idx` of a pool, `written` bytes having been written before.
-- All of it goes in if it fits; otherwise as much as fits does, and the writer sleeps with the
-- rest. No other slot changes.
pub record Written (idx : ℕ) (src : List ℕ) (written : ℕ) (pool : List Pipe)
    (out : Write × List Pipe) : Type 0 where
  pub result : out.0 ≡ (
      if leb (length src) (room (slot pool idx))
      then wrote (written + length src)
      else waiting idx (drop (room (slot pool idx)) src) (written + room (slot pool idx)))
  pub appended : Appended (take (room (slot pool idx)) src) (slot pool idx) (slot out.1 idx)
  pub others : (j : ℕ) → idx ≢ j → slot out.1 j ≡ slot pool j
  pub same_length : length out.1 ≡ length pool

Appended-nothing : (xs : List ℕ) (p : Pipe) → IsValid p → length xs ≡ 0 → Appended xs p p
Appended-nothing [] p v e = record {
  valid = v;
  bytes = sym (append-nil _);
  count = omega arith;
  same_readers = refl;
  same_writers = refl;
  same_used = refl;
}
Appended-nothing (x ∷ xs) p v e = absurd (omega arith)

-- Nothing fits, or nothing is left.
Written-stop :
    (idx written : ℕ) (src : List ℕ) (pool : List Pipe) {r : Write}
    → IsValid (slot pool idx)
    → min (room (slot pool idx)) (length src) ≡ 0
    → r ≡ (
        if leb (length src) (room (slot pool idx))
        then wrote (written + length src)
        else waiting idx (drop (room (slot pool idx)) src) (written + room (slot pool idx)))
    → Written idx src written pool (r, pool)
Written-stop idx written src pool v e result = record {
  result = result;
  appended =
      Appended-nothing (take (room (slot pool idx)) src) (slot pool idx) v
        (length-take (room (slot pool idx)) src ∙ e);
  others = λ j ne. refl;
  same_length = refl;
}

take-min {ℓ} : {A : Type ℓ} (n : ℕ) (xs : List A) → take (min n (length xs)) xs ≡ take n xs
take-min zero xs = ap (λ k. take k xs) least
  where
    least : min zero (length xs) ≡ zero
    least = omega arith
take-min (suc n) [] = ap (λ k. take k []) least
  where
    least : min (suc n) zero ≡ zero
    least = omega arith
take-min (suc n) (x ∷ xs) = ap (λ k. take k (x ∷ xs)) least ∙ ap (λ ys. x ∷ ys) (take-min n xs)
  where
    least : min (suc n) (suc (length xs)) ≡ suc (min n (length xs))
    least = omega arith

module _ (idx written : ℕ) (src : List ℕ) (pool : List Pipe) (v : IsValid (slot pool idx))
    (inside : idx < length pool) (reader : 0 < (slot pool idx).readers)
    (some_left : 0 < length src) where
  -- The pool after the first round.
  abbrev n : ℕ
  n = min (room (slot pool idx)) (length src)

  abbrev after : List Pipe
  after = set pool idx (put_chunk (take n src) (slot pool idx))

  slot-after : slot after idx ≡ put_chunk (take n src) (slot pool idx)
  slot-after = get_or-set_self pool idx _ closed_slot inside

  after-Appended : Appended (take n src) (slot pool idx) (slot after idx)
  after-Appended =
      rw slot-after (put_chunk-Appended (take n src) v (omega (arith, length-take n src, v.fits)))

  same_prefix : take n src ≡ take (room (slot pool idx)) src
  same_prefix = take-min (room (slot pool idx)) src

  -- The pool after the first round, with what the call then comes to.
  after-Written :
      {r : Write}
      → r ≡ (
          if leb (length src) (room (slot pool idx))
          then wrote (written + length src)
          else waiting idx (drop (room (slot pool idx)) src) (written + room (slot pool idx)))
      → Written idx src written pool (r, after)
  after-Written result = record {
    result = result;
    appended = rw (sym same_prefix) after-Appended;
    others = λ j ne. get_or-set_ne pool idx j _ closed_slot ne;
    same_length = length-set pool idx _;
  }

  first_round :
      (f : ℕ)
      → (slot pool idx).count < pipe_bufsz
      → write_loop (suc f) idx src written pool ≡ write_loop f idx (drop n src) (written + n) after
  first_round f space = write_loop_some idx written pool f n src some_left space reader refl

  write_loop_all :
      (f : ℕ)
      → length src ≤ room (slot pool idx)
      → Written idx src written pool (write_loop (suc (suc f)) idx src written pool)
  write_loop_all f fits =
      rw
        (first_round (suc f) (omega arith)
          ∙ write_loop_nil idx (written + n) after f (drop n src) none_left)
        (after-Written (ground arith))
    where
      none_left : length (drop n src) ≡ 0
      none_left = omega (arith, length-drop n src)

  full_after : room (slot pool idx) < length src → (slot after idx).count ≡ pipe_bufsz
  full_after over = omega (arith, after-Appended.count, length-take n src, v.fits)

  write_loop_part :
      (f : ℕ)
      → room (slot pool idx) < length src
      → (slot pool idx).count < pipe_bufsz
      → Written idx src written pool (write_loop (suc (suc f)) idx src written pool)
  write_loop_part f over space =
      rw
        (first_round (suc f) space
          ∙ write_loop_full idx (written + n) after f (drop n src)
              (omega (arith, length-drop n src)) (full_after over)
              (rw after-Appended.same_readers reader))
        (after-Written (rw least (ground arith)))
    where
      least : n ≡ room (slot pool idx)
      least = omega arith

  pub write_loop-Written :
      (f : ℕ) → Written idx src written pool (write_loop (suc (suc f)) idx src written pool)
  write_loop-Written f = elim (dec_lt (room (slot pool idx)) (length src)) [
    | no fits ↦ write_loop_all f (omega arith)
    | yes over ↦ elim (dec_lt (slot pool idx).count pipe_bufsz) [
      | yes space ↦ write_loop_part f over space
      | no full ↦
          rw (write_loop_full idx written pool (suc f) src some_left (omega (arith, v.fits)) reader)
            (Written-stop idx written src pool v (omega arith) (no_room (omega arith)))
    ]
  ]
    where
      no_room :
          room (slot pool idx) ≡ 0
          → waiting idx src written ≡ (
              if leb (length src) (room (slot pool idx))
              then wrote (written + length src)
              else waiting idx (drop (room (slot pool idx)) src) (written + room (slot pool idx)))
      no_room e = rw e (ground arith)

write_open-eq-loop :
    (from idx : ℕ) (src : List ℕ) (pool : List Pipe)
    → from ≢ 0
    → 0 < length src
    → write_open (some idx) from src pool ≡ write_loop (suc (suc (length src - 1))) idx src 0 pool
unfolding write_open
write_open-eq-loop from idx src pool valid some_left =
    let fuel : suc (suc (length src - 1)) ≡ length src + 1 = omega arith in rw fuel (ground arith)

-- A valid write handle onto a pool whose slots are valid: a write of at least one byte fails, and
-- changes nothing, exactly when the read end is closed; otherwise it appends what fits, in order,
-- returns the full count if that is everything, and sleeps with the rest if not. The fuel of the
-- model, one round for each byte, never runs out.
pub pipe_write-Written :
    (handle : ℤ) (from idx : ℕ) (src : List ℕ) (pool : List Pipe)
    → get_pipe handle end_write pool ≡ some idx
    → IsValid (slot pool idx)
    → idx < length pool
    → from ≢ 0
    → 0 < length src
    → (((slot pool idx).readers ≡ 0) × (pipe_write handle from src pool ≡ (no_reader, pool)))
      ⊎ ((0 < (slot pool idx).readers) × Written idx src 0 pool (pipe_write handle from src pool))
unfolding pipe_write
pipe_write-Written handle from idx src pool open_handle v inside valid some_left =
    rw (open_handle, write_open-eq-loop from idx src pool valid some_left)
      (elim (dec_lt 0 (slot pool idx).readers) [
        | yes reader ↦
            inr
              (reader, write_loop-Written idx 0 src pool v inside reader some_left (length src - 1))
        | no gone ↦
            let closed : (slot pool idx).readers ≡ 0 = omega arith in
            inl (closed, write_loop_closed idx 0 pool (suc (length src - 1)) src some_left closed)
      ])
