-- ===== src/Pipe/Stream.antt =====
-- Threads that share the pool: any interleaving of their calls, each of which sleeps and is entered
-- again where it stopped.
use stink_os.Base.{
  ℕ, suc, ◌+◌, ◌-◌, ◌<◌, ◌≡◌, ◌≢◌, refl, sym, ap, ◌∙◌, ℤ, List, [], ◌++◌, append-nil, append_assoc,
  Bool, false, not, ◌&&◌, length, take, leb, arith, Bool-cases, inl, inr, if◌then◌else◌, ◌==◌,
  ==_iff, subst, dec_lt, ℕ_discrete, take_all,
}
use stink_os.Pipe.{
  Pipe, pipe_max, slot, Write, refused, no_reader, out_of_fuel, wrote, waiting, write_loop, Read,
  read_loop, pipe_close, pipe_alloc,
}
use stink_os.Pipe.Buffer.{IsValid, contents}
use stink_os.Pipe.Writer.{room, Written, write_loop-Written, write_loop_closed}
use stink_os.Pipe.Reader.{delivered, Delivered, read_loop-Delivered}
use stink_os.Pipe.Pool.{PoolValid, pipe_alloc-PoolValid, opens, left, pipe_alloc-SlotCase}
use stink_os.Pipe.Close.{pipe_close_keeps}

-- The bytes of `src` that a call has put into its pipe since it was entered.
abbrev pub accepted : List ℕ → ℕ → Write → List ℕ
accepted src written (wrote w) = take (w - written) src
accepted src written (waiting i rest w) = take (w - written) src
accepted src written refused = []
accepted src written no_reader = []
accepted src written out_of_fuel = []

-- The pool, and all bytes that went into slot `idx` and came out of it since it was last opened.
pub record World : Type 0 where
  pub pool : List Pipe
  pub sent : List ℕ
  pub received : List ℕ

module _ (idx : ℕ) where
  abbrev pub after_write : ℕ → ℕ → List ℕ → World → World
  after_write j written src w =
      let (r, pool') = write_loop (length src + 1) j src written w.pool in
      record w {
        pool = pool';
        sent = if j == idx then w.sent ++ accepted src written r else w.sent;
      }

  abbrev pub after_read : ℕ → ℕ → World → World
  after_read j n w =
      let (r, pool') = read_loop j n w.pool in
      record w {
        pool = pool';
        received = if j == idx then w.received ++ delivered r else w.received;
      }

  -- The slot was free, and is in use now.
  abbrev is_reopened : List Pipe → List Pipe → Bool
  is_reopened pool pool' = not (slot pool idx).used && (slot pool' idx).used

  -- An allocation that opens the slot starts a new stream.
  abbrev pub after_alloc : ℕ → ℕ → World → World
  after_alloc rd wr w =
      let pool' = (pipe_alloc rd wr w.pool).1 in
      record {
        pool = pool';
        sent = if is_reopened w.pool pool' then [] else w.sent;
        received = if is_reopened w.pool pool' then [] else w.received;
      }

  -- A step of some thread: it enters, or wakes up in, the loop of a write or read on slot `j`, closes
  -- any handle, or allocates a pipe.
  pub data Step : World → World → Type 0 where
    writes :
        (j written : ℕ) (src : List ℕ) (w : World)
        → j < pipe_max
        → 0 < length src
        → Step w (after_write j written src w)
    reads : (j n : ℕ) (w : World) → j < pipe_max → 0 < n → Step w (after_read j n w)
    closes : (h : ℤ) (w : World) → Step w (record w { pool = (pipe_close h w.pool).1 })
    allocs : (rd wr : ℕ) (w : World) → Step w (after_alloc rd wr w)

  pub data Reach (w : World) : World → Type 0 where
    start : Reach w w
    next : {u v : World} → Reach w u → Step u v → Reach w v

  pub record InOrder (w : World) : Type 0 where
    pub valid : PoolValid w.pool
    pub stream : w.sent ≡ w.received ++ contents (slot w.pool idx)

-- A write on slot `j`, on every branch.
pub record Put (j written : ℕ) (src : List ℕ) (pool : List Pipe) (out : Write × List Pipe)
    : Type 0 where
  valid : IsValid (slot out.1 j)
  bytes : contents (slot out.1 j) ≡ contents (slot pool j) ++ accepted src written out.0
  others : (i : ℕ) → j ≢ i → slot out.1 i ≡ slot pool i
  same_length : length out.1 ≡ length pool

accepted-Written :
    (j written : ℕ) (src : List ℕ) (pool : List Pipe) {out : Write × List Pipe}
    → Written j src written pool out
    → accepted src written out.0 ≡ take (room (slot pool j)) src
accepted-Written j written src pool w =
    ap (accepted src written) w.result ∙ elim (Bool-cases (leb (length src) (room (slot pool j)))) [
      | inl fits ↦
          rw (fits, plus (length src))
            (take_all (length src) src (omega arith)
              ∙ sym (take_all (room (slot pool j)) src (ground arith)))
      | inr over ↦ rw (over, plus (room (slot pool j)))
    ]
  where
    plus : (n : ℕ) → written + n - written ≡ n
    plus n = omega arith

write_loop-Put :
    (j written : ℕ) (src : List ℕ) (pool : List Pipe)
    → PoolValid pool
    → j < pipe_max
    → 0 < length src
    → Put j written src pool (write_loop (length src + 1) j src written pool)
write_loop-Put j written src pool v lt some_left = rw fuel (elim (dec_lt 0 (slot pool j).readers) [
  | yes reader ↦
      open_Put (
        write_loop-Written j written src pool (v.each j lt) inside reader some_left
          (length src - 1))
  | no gone ↦
      rw (write_loop_closed j written pool (suc (length src - 1)) src some_left (omega arith))
        (record {
          valid = v.each j lt;
          bytes = sym (append-nil _);
          others = λ i ne. refl;
          same_length = refl;
        })
])
  where
    fuel : length src + 1 ≡ suc (suc (length src - 1))
    fuel = omega arith

    inside : j < length pool
    inside = rw v.slots lt

    open_Put :
        {out : Write × List Pipe} → Written j src written pool out → Put j written src pool out
    open_Put w = record {
      valid = w.appended.valid;
      bytes =
          w.appended.bytes
          ∙ ap (λ ys. contents (slot pool j) ++ ys) (sym (accepted-Written j written src pool w));
      others = w.others;
      same_length = w.same_length;
    }

-- A pool in which only slot `j` changed.
one_slot-PoolValid :
    (j : ℕ) {pool pool' : List Pipe}
    → PoolValid pool
    → IsValid (slot pool' j)
    → ((i : ℕ) → j ≢ i → slot pool' i ≡ slot pool i)
    → length pool' ≡ length pool
    → PoolValid pool'
one_slot-PoolValid j v ok others same = record {
  slots = same ∙ v.slots;
  each =
      λ i h. elim (ℕ_discrete j i) [ yes e ↦ rw (← e) ok | no ne ↦ rw (others i ne) (v.each i h) ];
}

module _ (idx : ℕ) where
  test_ne : (j : ℕ) → j ≢ idx → (j == idx) ≡ false
  test_ne j ne = ground arith

  writes-InOrder :
      (j written : ℕ) (src : List ℕ) (w : World)
      → j < pipe_max
      → 0 < length src
      → InOrder idx w
      → InOrder idx (after_write idx j written src w)
  writes-InOrder j written src w lt some_left o = record {
    valid = one_slot-PoolValid j o.valid put.valid put.others put.same_length;
    stream = elim (ℕ_discrete j idx) [
      | yes e ↦ rw ((==_iff j idx).1 e) (grown e)
      | no ne ↦
          rw (test_ne j ne)
            (o.stream ∙ ap (λ p. w.received ++ contents p) (sym (put.others idx ne)))
    ];
  }
    where
      out : Write × List Pipe
      out = write_loop (length src + 1) j src written w.pool

      put : Put j written src w.pool out
      put = write_loop-Put j written src w.pool o.valid lt some_left

      bytes :
          j ≡ idx
          → contents (slot out.1 idx) ≡ contents (slot w.pool idx) ++ accepted src written out.0
      bytes e =
          subst
            (λ m. contents (slot out.1 m) ≡ contents (slot w.pool m) ++ accepted src written out.0)
            e put.bytes

      grown :
          j ≡ idx → w.sent ++ accepted src written out.0 ≡ w.received ++ contents (slot out.1 idx)
      grown e =
          ap (λ xs. xs ++ accepted src written out.0) o.stream
          ∙ append_assoc w.received _ _
          ∙ ap (λ xs. w.received ++ xs) (sym (bytes e))

  reads-InOrder :
      (j n : ℕ) (w : World)
      → j < pipe_max
      → 0 < n
      → InOrder idx w
      → InOrder idx (after_read idx j n w)
  reads-InOrder j n w lt wanted o = record {
    valid = one_slot-PoolValid j o.valid d.valid d.others d.same_length;
    stream = elim (ℕ_discrete j idx) [
      | yes e ↦ rw ((==_iff j idx).1 e) (moved e)
      | no ne ↦
          rw (test_ne j ne) (o.stream ∙ ap (λ p. w.received ++ contents p) (sym (d.others idx ne)))
    ];
  }
    where
      out : Read × List Pipe
      out = read_loop j n w.pool

      d : Delivered j n w.pool out
      d = read_loop-Delivered j n w.pool (o.valid.each j lt) (rw o.valid.slots lt) wanted

      bytes : j ≡ idx → delivered out.0 ++ contents (slot out.1 idx) ≡ contents (slot w.pool idx)
      bytes e =
          subst (λ m. delivered out.0 ++ contents (slot out.1 m) ≡ contents (slot w.pool m)) e
            d.bytes

      moved : j ≡ idx → w.sent ≡ (w.received ++ delivered out.0) ++ contents (slot out.1 idx)
      moved e =
          o.stream ∙ ap (λ xs. w.received ++ xs) (sym (bytes e)) ∙ sym (append_assoc w.received _ _)

  allocs-InOrder : (rd wr : ℕ) (w : World) → InOrder idx w → InOrder idx (after_alloc idx rd wr w)
  allocs-InOrder rd wr w o = record {
    valid = pipe_alloc-PoolValid rd wr o.valid;
    stream = elim (pipe_alloc-SlotCase rd wr idx w.pool) [
      | opens free used empty ↦ rw (free, used) (sym empty)
      | left same ↦ rw (kept same) (o.stream ∙ ap (λ p. w.received ++ contents p) (sym same))
    ];
  }
    where
      kept :
          slot (pipe_alloc rd wr w.pool).1 idx ≡ slot w.pool idx
          → (not (slot w.pool idx).used && (slot (pipe_alloc rd wr w.pool).1 idx).used) ≡ false
      kept same = elim (Bool-cases (slot w.pool idx).used) [
        | inl e ↦ rw e refl
        | inr e ↦ rw (e, ap (λ p. p.used) same ∙ e) refl
      ]

  Step-InOrder : {w v : World} → Step idx w v → InOrder idx w → InOrder idx v
  Step-InOrder (writes j written src w lt some_left) o =
      writes-InOrder j written src w lt some_left o
  Step-InOrder (reads j n w lt wanted) o = reads-InOrder j n w lt wanted o
  Step-InOrder (closes h w) o = record {
    valid = (pipe_close_keeps h o.valid).0;
    stream = o.stream ∙ ap (λ xs. w.received ++ xs) (sym ((pipe_close_keeps h o.valid).1 idx));
  }
  Step-InOrder (allocs rd wr w) o = allocs-InOrder rd wr w o

  -- A pipe is a first-in first-out stream: from an empty slot in a valid pool, after any interleaving
  -- of writes and reads of at least a byte on any slots, closes of any handles and allocations by any
  -- threads, the bytes accepted for the slot since it was last opened are exactly those delivered from
  -- it since then, followed by those that are still in it; none is lost, repeated or out of order, and
  -- none is left over from the pipe that had the slot before. Calls may have slept and been entered
  -- again any number of times.
  pub Reach-InOrder :
      (pool : List Pipe) {w : World}
      → PoolValid pool
      → contents (slot pool idx) ≡ []
      → Reach idx (record { pool = pool; sent = []; received = [] }) w
      → w.sent ≡ w.received ++ contents (slot w.pool idx)
  Reach-InOrder pool v empty r = (walk r (record { valid = v; stream = sym empty })).stream
    where
      walk : {w u : World} → Reach idx w u → InOrder idx w → InOrder idx u
      walk start o = o
      walk (next r s) o = Step-InOrder s (walk r o)
