-- ===== src/Pipe/Tests.antt =====
-- Pipes on concrete input.
use stink_os.Base.{
  ℕ, zero, suc, ◌<◌, ◌≡◌, ◌≢◌, ◌⊎◌, refl, pos, List, [], ◌∷◌, ◌++◌, some, none, true, false,
  replicate, arith, length-replicate,
}
use stink_os.Pipe.{
  Pipe, pipe_max, pipe_bufsz, slot, pipe_alloc, pipe_close, pipe_read, pipe_write, get_pipe,
  end_read, end_write, no_reader, alloc_from, write_loop, put_chunk, put_loop, read_loop,
  take_chunk, take_loop,
}
use stink_os.Base.Ring.{window}
use stink_os.Pipe.Buffer.{IsValid, contents}
use stink_os.Pipe.Writer.{Written, pipe_write-Written}
use stink_os.Pipe.Reader.{Delivered, pipe_read-Delivered}
use stink_os.Pipe.Pool.{PoolValid}
use stink_os.Pipe.Close.{pipe_close_both}
use stink_os.Pipe.Stream.{
  World, start, next, writes, reads, allocs, after_alloc, after_write, after_read, Reach-InOrder,
}

-- A slot of the zeroed pool at boot, and one that is open.
abbrev boot_slot : Pipe
boot_slot = record {
  buf = replicate pipe_bufsz 0;
  head = 0;
  tail = 0;
  count = 0;
  readers = 0;
  writers = 0;
  used = false;
}

abbrev slot_open : Pipe
slot_open = record boot_slot { readers = 1; writers = 1; used = true }

boot_pool : List Pipe
boot_pool = replicate pipe_max boot_slot

boot_slot-IsValid : IsValid boot_slot
boot_slot-IsValid = omega (arith, length-replicate {A = ℕ} pipe_bufsz 0)

slot_open-IsValid : IsValid slot_open
slot_open-IsValid = omega (arith, length-replicate {A = ℕ} pipe_bufsz 0)

IsValid-slots : (n : ℕ) (p : Pipe) → IsValid p → (i : ℕ) → i < n → IsValid (slot (replicate n p) i)
unfolding replicate
IsValid-slots zero p v i h = absurd (omega arith)
IsValid-slots (suc n) p v zero h = v
IsValid-slots (suc n) p v (suc i) h = IsValid-slots n p v i (omega arith)

boot_pool-PoolValid : PoolValid boot_pool
unfolding boot_pool
boot_pool-PoolValid = record {
  slots = length-replicate pipe_max boot_slot;
  each = IsValid-slots pipe_max boot_slot boot_slot-IsValid;
}

alloc_first : (pipe_alloc 4 8 boot_pool).0 ≡ some (0, 1)
unfolding pipe_alloc alloc_from boot_pool replicate
alloc_first = refl

-- Two open pipes.
abbrev two : List Pipe
two = slot_open ∷ slot_open ∷ []

abbrev hello : List ℕ
hello = 104 ∷ 105 ∷ []

second_write : get_pipe (pos 3) end_write two ≡ some 1
unfolding get_pipe
second_write = refl

second_read : get_pipe (pos 2) end_read two ≡ some 1
unfolding get_pipe
second_read = refl

pipe_write-Written_example :
    (((slot two 1).readers ≡ 0) × (pipe_write (pos 3) 16 hello two ≡ (no_reader, two)))
    ⊎ ((0 < (slot two 1).readers) × Written 1 hello 0 two (pipe_write (pos 3) 16 hello two))
pipe_write-Written_example =
    pipe_write-Written (pos 3) 16 1 hello two second_write slot_open-IsValid (omega arith)
      (omega arith) (omega arith)

pipe_read-Delivered_example : Delivered 1 5 two (pipe_read (pos 2) 16 5 two)
pipe_read-Delivered_example =
    pipe_read-Delivered (pos 2) 16 5 1 two second_read slot_open-IsValid (omega arith) (omega arith)
      (omega arith)

pipe_close_both_example :
    let (done, once) = pipe_close (pos 2) two in
    let (done', twice) = pipe_close (pos 3) once in
    (done ≡ true)
    × (get_pipe (pos 2) end_read once ≡ some 1)
    × (get_pipe (pos 3) end_write once ≡ some 1)
    × (contents (slot once 1) ≡ contents slot_open)
    × (done' ≡ true)
    × (get_pipe (pos 2) end_read twice ≡ none)
    × (get_pipe (pos 3) end_write twice ≡ none)
    × ((j : ℕ) → ◌≢◌ {A = ℕ} 1 j → slot twice j ≡ slot two j)
pipe_close_both_example = pipe_close_both 1 two (omega arith) (omega arith) refl refl refl

abbrev boot_world : World
boot_world = record { pool = boot_pool; sent = []; received = [] }

-- The first allocation opens slot 0; then two bytes are written to it and one is read.
abbrev allocated : World
allocated = after_alloc 0 4 8 boot_world

abbrev written : World
written = after_write 0 0 0 hello allocated

abbrev later : World
later = after_read 0 0 1 written

boot_empty : contents (slot boot_pool 0) ≡ []
unfolding boot_pool replicate window
boot_empty = refl

Reach-InOrder_example : later.sent ≡ later.received ++ contents (slot later.pool 0)
Reach-InOrder_example = Reach-InOrder 0 boot_pool boot_pool-PoolValid boot_empty (
    next
      (next (next start (allocs 4 8 boot_world))
        (writes 0 0 hello allocated (omega arith) (omega arith)))
      (reads 0 1 written (omega arith) (omega arith)))

-- A byte came through, and the other one waits.
later_received : later.received ≡ 104 ∷ []
unfolding pipe_alloc alloc_from boot_pool replicate write_loop put_chunk put_loop read_loop
    take_chunk take_loop
later_received = refl
