-- ===== src/Pipe/Buffer.antt =====
-- The circular buffer of one pipe as a queue of bytes.
use stink_os.Base.{
  ℕ, zero, suc, ◌+◌, ◌-◌, ◌%◌, ◌≤◌, ◌<◌, ◌≡◌, refl, sym, ap, ap₂, ◌∙◌, List, [], ◌∷◌, ◌++◌,
  append-nil, append_assoc, length, get_or, set, min, ltb, arith, length-set, Bool-cases, inl, inr,
}
use stink_os.Base.Ring.{window, length-window, window_mod, window-set_end, window-append}
use stink_os.Pipe.{Pipe, pipe_bufsz, take_loop, take_chunk, put_loop, put_chunk}

pub record IsValid (p : Pipe) : Type 0 where
  pub size : length p.buf ≡ pipe_bufsz
  pub tail_in : p.tail < pipe_bufsz
  pub fits : p.count ≤ pipe_bufsz
  pub head_at : p.head ≡ (p.tail + p.count) % pipe_bufsz
  pub one_reader : p.readers ≤ 1
  pub one_writer : p.writers ≤ 1

-- The bytes in the pipe, oldest first.
abbrev pub contents : Pipe → List ℕ
contents p = window pipe_bufsz p.buf p.tail p.count

pub length-contents : (p : Pipe) → length (contents p) ≡ p.count
length-contents p = length-window pipe_bufsz p.buf p.tail p.count

-- What the write loop has done when `n` bytes were in the pipe before it.
record Put (p : Pipe) (n : ℕ) (xs : List ℕ) (p' : Pipe) : Type 0 where
  size : length p'.buf ≡ pipe_bufsz
  at : p'.head ≡ (p.tail + (n + length xs)) % pipe_bufsz
  bytes : window pipe_bufsz p'.buf p.tail (n + length xs) ≡ window pipe_bufsz p.buf p.tail n ++ xs
  same_tail : p'.tail ≡ p.tail
  same_count : p'.count ≡ p.count
  same_readers : p'.readers ≡ p.readers
  same_writers : p'.writers ≡ p.writers
  same_used : p'.used ≡ p.used

-- One round of the loop.
abbrev stored : ℕ → Pipe → Pipe
stored x p = record p { buf = set p.buf p.head x; head = (p.head + 1) % pipe_bufsz }

stored-Put :
    (x : ℕ) (xs : List ℕ) (p p' : Pipe) (n : ℕ)
    → length p.buf ≡ pipe_bufsz
    → p.head ≡ (p.tail + n) % pipe_bufsz
    → n < pipe_bufsz
    → Put (stored x p) (n + 1) xs p'
    → Put p n (x ∷ xs) p'
stored-Put x xs p p' n size at room rest = record {
  size = rest.size;
  at = omega (arith, rest.at);
  bytes =
      ap (window pipe_bufsz p'.buf p.tail) shift
      ∙ rest.bytes
      ∙ ap (λ ys. ys ++ xs)
          (window-set_end pipe_bufsz p.buf p.head x p.tail n (omega arith) room at)
      ∙ append_assoc _ (x ∷ []) xs;
  same_tail = rest.same_tail;
  same_count = rest.same_count;
  same_readers = rest.same_readers;
  same_writers = rest.same_writers;
  same_used = rest.same_used;
}
  where
    shift : n + suc (length xs) ≡ n + 1 + length xs
    shift = omega arith

put_loop-Put :
    (xs : List ℕ) (p : Pipe) (n : ℕ)
    → length p.buf ≡ pipe_bufsz
    → p.head ≡ (p.tail + n) % pipe_bufsz
    → n + length xs ≤ pipe_bufsz
    → Put p n xs (put_loop xs p)
unfolding put_loop
put_loop-Put [] p n size at room = record {
  size = size;
  at = omega arith;
  bytes = ap (window pipe_bufsz p.buf p.tail) (omega arith) ∙ sym (append-nil _);
  same_tail = refl;
  same_count = refl;
  same_readers = refl;
  same_writers = refl;
  same_used = refl;
}
put_loop-Put (x ∷ xs) p n size at room = stored-Put x xs p _ n size at (omega arith) (
    put_loop-Put xs (stored x p) (n + 1) (length-set p.buf p.head x ∙ size) (omega arith)
      (omega arith))

-- Bytes that fit are appended, in order, and change nothing else.
pub record Appended (xs : List ℕ) (p p' : Pipe) : Type 0 where
  pub valid : IsValid p'
  pub bytes : contents p' ≡ contents p ++ xs
  pub count : p'.count ≡ p.count + length xs
  pub same_readers : p'.readers ≡ p.readers
  pub same_writers : p'.writers ≡ p.writers
  pub same_used : p'.used ≡ p.used

pub put_chunk-Appended :
    (xs : List ℕ) {p : Pipe}
    → IsValid p
    → p.count + length xs ≤ pipe_bufsz
    → Appended xs p (put_chunk xs p)
unfolding put_chunk
put_chunk-Appended xs {p} v room =
    let done = put_loop-Put xs p p.count v.size v.head_at room in
    record {
      valid = record {
        size = done.size;
        tail_in = rw done.same_tail v.tail_in;
        fits = room;
        head_at = omega (arith, done.at, done.same_tail);
        one_reader = rw done.same_readers v.one_reader;
        one_writer = rw done.same_writers v.one_writer;
      };
      bytes = rw done.same_tail done.bytes;
      count = refl;
      same_readers = done.same_readers;
      same_writers = done.same_writers;
      same_used = done.same_used;
    }

-- What the read loop has done after `k` rounds.
record Took (p : Pipe) (k : ℕ) (out : List ℕ) (p' : Pipe) : Type 0 where
  bytes : out ≡ window pipe_bufsz p.buf p.tail k
  at : p'.tail ≡ (p.tail + k) % pipe_bufsz
  same_buf : p'.buf ≡ p.buf
  same_head : p'.head ≡ p.head
  same_readers : p'.readers ≡ p.readers
  same_writers : p'.writers ≡ p.writers
  same_used : p'.used ≡ p.used

abbrev passed : Pipe → Pipe
passed p = record p { tail = (p.tail + 1) % pipe_bufsz }

passed-Took :
    (p p' : Pipe) (k : ℕ) (out : List ℕ)
    → p.tail < pipe_bufsz
    → Took (passed p) k out p'
    → Took p (suc k) (get_or p.buf p.tail 0 ∷ out) p'
unfolding window
passed-Took p p' k out inside rest = record {
  bytes =
      ap₂ (λ i ys. get_or p.buf i 0 ∷ ys) cell
        (rest.bytes ∙ window_mod pipe_bufsz p.buf _ (p.tail + 1) k (omega arith));
  at = omega (arith, rest.at);
  same_buf = rest.same_buf;
  same_head = rest.same_head;
  same_readers = rest.same_readers;
  same_writers = rest.same_writers;
  same_used = rest.same_used;
}
  where
    cell : p.tail ≡ p.tail % pipe_bufsz
    cell = omega arith

take_loop-Took :
    (k : ℕ) (p : Pipe) → p.tail < pipe_bufsz → Took p k (take_loop k p).0 (take_loop k p).1
unfolding take_loop window
take_loop-Took zero p inside = record {
  bytes = refl;
  at = omega arith;
  same_buf = refl;
  same_head = refl;
  same_readers = refl;
  same_writers = refl;
  same_used = refl;
}
take_loop-Took (suc k) p inside =
    passed-Took p _ k _ inside (take_loop-Took k (passed p) (omega arith))

-- The oldest bytes are taken, as many as there are and as are asked for; the rest stays.
pub record Taken (n : ℕ) (p : Pipe) (out : List ℕ) (p' : Pipe) : Type 0 where
  pub valid : IsValid p'
  pub bytes : out ++ contents p' ≡ contents p
  pub amount : length out ≡ min n p.count
  pub same_readers : p'.readers ≡ p.readers
  pub same_writers : p'.writers ≡ p.writers
  pub same_used : p'.used ≡ p.used

Taken-exactly :
    (k : ℕ) {p p' : Pipe} (out : List ℕ)
    → IsValid p
    → k ≤ p.count
    → Took p k out p'
    → Taken k p out (record p' { count = p.count - k })
Taken-exactly k {p} {p'} out v le t = record {
  valid = record {
    size = rw t.same_buf v.size;
    tail_in = omega (arith, t.at);
    fits = omega (arith, v.fits);
    head_at = omega (arith, t.same_head, t.at, v.head_at);
    one_reader = rw t.same_readers v.one_reader;
    one_writer = rw t.same_writers v.one_writer;
  };
  bytes =
      ap₂ ◌++◌ t.bytes (
        rw t.same_buf
          (window_mod pipe_bufsz p.buf p'.tail (p.tail + k) (p.count - k) (omega (arith, t.at))))
      ∙ sym (window-append pipe_bufsz p.buf p.tail k (p.count - k))
      ∙ ap (window pipe_bufsz p.buf p.tail) (omega arith);
  amount = ap length t.bytes ∙ length-window pipe_bufsz p.buf p.tail k ∙ omega arith;
  same_readers = t.same_readers;
  same_writers = t.same_writers;
  same_used = t.same_used;
}

Taken-amount :
    (k n : ℕ) {p : Pipe} {out : List ℕ} {p' : Pipe}
    → Taken k p out p'
    → min k p.count ≡ min n p.count
    → Taken n p out p'
Taken-amount k n t e = record {
  valid = t.valid;
  bytes = t.bytes;
  amount = t.amount ∙ e;
  same_readers = t.same_readers;
  same_writers = t.same_writers;
  same_used = t.same_used;
}

pub take_chunk-Taken :
    (n : ℕ) {p : Pipe} → IsValid p → Taken n p (take_chunk n p).0 (take_chunk n p).1
unfolding take_chunk
take_chunk-Taken n {p} v = elim (Bool-cases (ltb n p.count)) [
  | inl some_left ↦ rw some_left (Taken-exactly n _ v (ground arith) (take_loop-Took n p v.tail_in))
  | inr all_taken ↦ rw all_taken (
      Taken-amount p.count n
        (Taken-exactly p.count _ v (omega arith) (take_loop-Took p.count p v.tail_in))
        (ground arith))
]
