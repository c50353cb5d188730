-- ===== src/Pipe/Reader.antt =====
-- `pipe_read`: what a call delivers, and when it sleeps.
use stink_os.Base.{
  ℕ, ◌<◌, ◌≡◌, ◌≢◌, refl, ap, ℤ, List, [], ◌++◌, length, set, min, arith, length-set, some,
  if◌then◌else◌, get_or-set_self, get_or-set_ne, ◌==◌, ◌||◌, dec_lt,
}
use stink_os.Pipe.{
  Pipe, slot, closed_slot, take_chunk, Read, bad_handle, got, blocked, read_loop, read_open,
  pipe_read, get_pipe, end_read,
}
use stink_os.Pipe.Buffer.{IsValid, contents, Taken, take_chunk-Taken}

-- The bytes that a call stores through `dst`.
abbrev pub delivered : Read → List ℕ
delivered (got out) = out
delivered bad_handle = []
delivered (blocked idx) = []

-- The outcome of reading at most `n` bytes from slot `idx`. The oldest bytes are delivered, in
-- order, and the rest stays; the call sleeps only on an empty pipe with a writer, and delivers
-- nothing otherwise only from an empty pipe with no writer. No other slot changes.
pub record Delivered (idx n : ℕ) (pool : List Pipe) (out : Read × List Pipe) : Type 0 where
  pub valid : IsValid (slot out.1 idx)
  pub bytes : delivered out.0 ++ contents (slot out.1 idx) ≡ contents (slot pool idx)
  pub amount : length (delivered out.0) ≡ min n (slot pool idx).count
  pub sleeps : out.0 ≡ blocked idx → ((slot pool idx).count ≡ 0) × (0 < (slot pool idx).writers)
  pub ends : out.0 ≡ got [] → ((slot pool idx).count ≡ 0) × ((slot pool idx).writers ≡ 0)
  pub others : (j : ℕ) → idx ≢ j → slot out.1 j ≡ slot pool j
  pub same_length : length out.1 ≡ length pool

module _ (idx n : ℕ) (pool : List Pipe) where
  read_loop_wait :
      (slot pool idx).count ≡ 0
      → 0 < (slot pool idx).writers
      → read_loop idx n pool ≡ (blocked idx, pool)
  unfolding read_loop
  read_loop_wait empty writer = ground arith

  read_loop_end :
      (slot pool idx).count ≡ 0
      → (slot pool idx).writers ≡ 0
      → read_loop idx n pool ≡ (got [], pool)
  unfolding read_loop
  read_loop_end empty writer = ground arith

  read_loop_some :
      0 < (slot pool idx).count
      → read_loop idx n pool
        ≡ (got (take_chunk n (slot pool idx)).0, set pool idx (take_chunk n (slot pool idx)).1)
  unfolding read_loop
  read_loop_some some_left = ground arith

  pub read_loop-Delivered :
      IsValid (slot pool idx)
      → idx < length pool
      → 0 < n
      → Delivered idx n pool (read_loop idx n pool)
  read_loop-Delivered v inside wanted = elim (dec_lt 0 (slot pool idx).count) [
    | yes some_left ↦ rw (read_loop_some some_left) (some_Delivered some_left)
    | no none_left ↦ elim (dec_lt 0 (slot pool idx).writers) [
      | yes writer ↦ rw (read_loop_wait (omega arith) writer) (record {
        valid = v;
        bytes = refl;
        amount = omega arith;
        sleeps = λ e. (omega arith, writer);
        ends = λ e. cc;
        others = λ j ne. refl;
        same_length = refl;
      })
      | no closed ↦ rw (read_loop_end (omega arith) (omega arith)) (record {
        valid = v;
        bytes = refl;
        amount = omega arith;
        sleeps = λ e. cc;
        ends = λ e. (omega arith, omega arith);
        others = λ j ne. refl;
        same_length = refl;
      })
    ]
  ]
    where
      t : Taken n (slot pool idx) (take_chunk n (slot pool idx)).0 (take_chunk n (slot pool idx)).1
      t = take_chunk-Taken n v

      there :
          slot (set pool idx (take_chunk n (slot pool idx)).1) idx
          ≡ (take_chunk n (slot pool idx)).1
      there = get_or-set_self pool idx _ closed_slot inside

      nonempty :
          0 < (slot pool idx).count
          → got (take_chunk n (slot pool idx)).0 ≡ got []
          → ((slot pool idx).count ≡ 0) × ((slot pool idx).writers ≡ 0)
      nonempty some_left e = absurd (omega (arith, ap (λ r. length (delivered r)) e, t.amount))

      some_Delivered :
          0 < (slot pool idx).count
          → Delivered idx n pool
              (got (take_chunk n (slot pool idx)).0, set pool idx (take_chunk n (slot pool idx)).1)
      some_Delivered some_left = record {
        valid = rw there t.valid;
        bytes = rw there t.bytes;
        amount = t.amount;
        sleeps = λ e. cc;
        ends = nonempty some_left;
        others = λ j ne. get_or-set_ne pool idx j _ closed_slot ne;
        same_length = length-set pool idx _;
      }

-- A read of at least one byte, through a read handle that passes the check onto a valid slot, into a
-- buffer that is not NULL: it delivers the oldest bytes in order, as many as there are and as are
-- asked for, and leaves the rest; it sleeps only on an empty pipe whose write end is open, and
-- returns no bytes only from an empty pipe whose write end is closed. No other slot changes.
pub pipe_read-Delivered :
    (handle : ℤ) (dst n idx : ℕ) (pool : List Pipe)
    → get_pipe handle end_read pool ≡ some idx
    → IsValid (slot pool idx)
    → idx < length pool
    → dst ≢ 0
    → 0 < n
    → Delivered idx n pool (pipe_read handle dst n pool)
unfolding pipe_read read_open
pipe_read-Delivered handle dst n idx pool open_handle v inside valid wanted =
    rw open_handle (rw enters (read_loop-Delivered idx n pool v inside wanted))
  where
    enters :
        (if dst == 0 || n == 0 then (got [], pool) else read_loop idx n pool) ≡ read_loop idx n pool
    enters = ground arith
