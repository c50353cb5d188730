-- ===== src/Pipe.antt =====
-- The anonymous pipes of kernel/sys/pipe.c. A pointer argument is its address, and 0 is NULL; the
-- bytes of a buffer are a list beside it. -1 is `none` or a constructor of the result.
-- Where the source sleeps (`sti; hlt; cli`) and tests again, a call stops with `blocked`; the
-- loop is entered again, from the same place, when the thread wakes up.
pub mod Buffer
pub mod Writer
pub mod Reader
pub mod Stream
pub mod Pool
pub mod Close
mod Tests
use stink_os.Base.{
  ℕ, zero, suc, ◌+◌, ◌-◌, ◌*◌, ◌/◌, ◌%◌, ℤ, pos, negsuc, List, [], ◌∷◌, Option, none, some, Bool,
  true, false, not, ◌&&◌, ◌||◌, length, get_or, set, take, drop, replicate, ltb, leb, ◌==◌,
  if◌then◌else◌,
}

-- `PIPE_MAX` and `PIPE_BUFSZ`
abbrev pub pipe_max : ℕ
pipe_max = 8

abbrev pub pipe_bufsz : ℕ
pipe_bufsz = 4096

-- `struct pipe`
pub record Pipe : Type 0 where
  pub buf : List ℕ
  pub head : ℕ
  pub tail : ℕ
  pub count : ℕ
  pub readers : ℕ
  pub writers : ℕ
  pub used : Bool

-- `pool[i]`, with a slot never used for an index outside the pool.
abbrev pub closed_slot : Pipe
closed_slot = record {
  buf = [];
  head = 0;
  tail = 0;
  count = 0;
  readers = 0;
  writers = 0;
  used = false;
}

abbrev pub slot : List Pipe → ℕ → Pipe
slot pool i = get_or pool i closed_slot

abbrev pub end_read : ℕ
end_read = 0

abbrev pub end_write : ℕ
end_write = 1

-- `HANDLE_END`, `HANDLE_IDX` and `MAKE_HANDLE`
abbrev pub handle_end : ℕ → ℕ
handle_end h = h % 2

abbrev pub handle_idx : ℕ → ℕ
handle_idx h = h / 2

abbrev pub make_handle : ℕ → ℕ → ℕ
make_handle i e = i * 2 + e

-- The index of the slot that `get_pipe` points to.
pub get_pipe : ℤ → ℕ → List Pipe → Option ℕ
get_pipe (negsuc _) expect_end pool = none
get_pipe (pos h) expect_end pool =
    if leb (pipe_max * 2) h
    then none
    else if not (handle_end h == expect_end)
    then none
    else if not (slot pool (handle_idx h)).used
    then none
    else some (handle_idx h)

abbrev pub opened : Pipe → Pipe
opened p = record p { head = 0; tail = 0; count = 0; readers = 1; writers = 1; used = true }

-- The loop of `pipe_alloc` from slot `i` on: the index taken, and the slots.
pub alloc_from : ℕ → List Pipe → Option ℕ × List Pipe
alloc_from i [] = (none, [])
alloc_from i (p ∷ ps) =
    let (r, ps') = alloc_from (i + 1) ps in if p.used then (r, p ∷ ps') else (some i, opened p ∷ ps)

-- The two handles stored through the pointers.
abbrev pub handles : Option ℕ → Option (ℕ × ℕ)
handles none = none
handles (some i) = some (make_handle i end_read, make_handle i end_write)

pub pipe_alloc : ℕ → ℕ → List Pipe → Option (ℕ × ℕ) × List Pipe
pipe_alloc rd wr pool =
    let (r, pool') = alloc_from 0 pool in
    if rd == 0 || wr == 0 then (none, pool) else (handles r, pool')

-- One end less; the slot is free when both are closed.
pub drop_end : ℕ → Pipe → Pipe
drop_end e p =
    let r = if e == end_read && ltb 0 p.readers then p.readers - 1 else p.readers in
    let w = if not (e == end_read) && ltb 0 p.writers then p.writers - 1 else p.writers in
    record p { readers = r; writers = w; used = if r == 0 && w == 0 then false else p.used }

-- `true` is the result 0, `false` is -1.
pub pipe_close : ℤ → List Pipe → Bool × List Pipe
pipe_close (negsuc _) pool = (false, pool)
pipe_close (pos h) pool =
    if leb (pipe_max * 2) h
    then (false, pool)
    else let p = slot pool (handle_idx h) in
      if not p.used
      then (false, pool)
      else (true, set pool (handle_idx h) (drop_end (handle_end h) p))

-- The copy loop of `pipe_read`, and the update of `count` behind it.
pub take_loop : ℕ → Pipe → List ℕ × Pipe
take_loop zero p = ([], p)
take_loop (suc n) p =
    let (out, p') = take_loop n (record p { tail = (p.tail + 1) % pipe_bufsz }) in
    (get_or p.buf p.tail 0 ∷ out, p')

pub take_chunk : ℕ → Pipe → List ℕ × Pipe
take_chunk n p =
    let k = if ltb n p.count then n else p.count in
    let (out, p') = take_loop k p in (out, record p' { count = p.count - k })

-- The copy loop of `pipe_write`, and the update of `count` behind it.
pub put_loop : List ℕ → Pipe → Pipe
put_loop [] p = p
put_loop (x ∷ xs) p =
    put_loop xs (record p { buf = set p.buf p.head x; head = (p.head + 1) % pipe_bufsz })

pub put_chunk : List ℕ → Pipe → Pipe
put_chunk xs p = let p' = put_loop xs p in record p' { count = p.count + length xs }

-- What a call of `pipe_read` comes to.
pub data Read : Type 0 where
  bad_handle : Read
  got : List ℕ → Read
  blocked : ℕ → Read

-- From the loop that waits for bytes on: `idx` is the slot.
pub read_loop : ℕ → ℕ → List Pipe → Read × List Pipe
read_loop idx n pool =
    let p = slot pool idx in
    if p.count == 0 && ltb 0 p.writers
    then (blocked idx, pool)
    else if p.count == 0
    then (got [], pool)
    else let (out, p') = take_chunk n p in (got out, set pool idx p')

pub read_open : Option ℕ → ℕ → ℕ → List Pipe → Read × List Pipe
read_open none dst n pool = (bad_handle, pool)
read_open (some idx) dst n pool =
    if dst == 0 || n == 0 then (got [], pool) else read_loop idx n pool

pub pipe_read : ℤ → ℕ → ℕ → List Pipe → Read × List Pipe
pipe_read handle dst n pool = read_open (get_pipe handle end_read pool) dst n pool

-- What a call of `pipe_write` comes to; `waiting` holds the bytes left and the number written.
pub data Write : Type 0 where
  refused no_reader out_of_fuel : Write
  wrote : ℕ → Write
  waiting : ℕ → List ℕ → ℕ → Write

-- From the loop `while (written < n)` on: `src` is what is left to write.
pub write_loop : ℕ → ℕ → List ℕ → ℕ → List Pipe → Write × List Pipe
write_loop zero idx src written pool = (out_of_fuel, pool)
write_loop (suc fuel) idx src written pool =
    let p = slot pool idx in
    let space = pipe_bufsz - p.count in
    let chunk = if ltb space (length src) then space else length src in
    let rest =
      write_loop fuel idx (drop chunk src) (written + chunk)
        (set pool idx (put_chunk (take chunk src) p)) in
    if length src == 0
    then (wrote written, pool)
    else if p.count == pipe_bufsz && ltb 0 p.readers
    then (waiting idx src written, pool)
    else if p.readers == 0
    then (no_reader, pool)
    else rest

pub write_open : Option ℕ → ℕ → List ℕ → List Pipe → Write × List Pipe
write_open none from src pool = (refused, pool)
write_open (some idx) from src pool =
    if from == 0 || length src == 0
    then (wrote 0, pool)
    else write_loop (length src + 1) idx src 0 pool

pub pipe_write : ℤ → ℕ → List ℕ → List Pipe → Write × List Pipe
pipe_write handle from src pool = write_open (get_pipe handle end_write pool) from src pool
