-- ===== src/Timer.antt =====
-- The one-shot timers of kernel/sys/timer.c. A callback with its argument is a number; the callbacks
-- that fire are listed in order. The clock `pit_ticks()` is an argument.
pub mod Slots
mod Tests
use stink_os.Base.{
  ℕ, zero, suc, ◌+◌, ◌-◌, ◌*◌, ◌/◌, ◌%◌, ◌^◌, ℤ, pos, negsuc, List, [], ◌∷◌, Option, none, some,
  Bool, true, false, not, ◌&&◌, ◌||◌, length, get_or, set, ltb, leb, ◌==◌, if◌then◌else◌, add32,
  sub32,
}

-- `TIMER_MAX`
abbrev pub timer_max : ℕ
timer_max = 16

-- `struct timer_slot`
pub record Timer : Type 0 where
  pub in_use : Bool
  pub deadline_ticks : ℕ
  pub cb : ℕ
  pub arg : ℕ

abbrev pub no_timer : Timer
no_timer = record { in_use = false; deadline_ticks = 0; cb = 0; arg = 0 }

abbrev pub timer : List Timer → ℕ → Timer
timer t i = get_or t i no_timer

pub timer_init : List Timer → List Timer
timer_init [] = []
timer_init (s ∷ t) = record s { in_use = false } ∷ timer_init t

-- The ticks of a delay, at least one.
abbrev pub ticks_of : ℕ → ℕ
ticks_of delay_ms = if add32 delay_ms 9 / 10 == 0 then 1 else add32 delay_ms 9 / 10

abbrev pub armed : ℕ → ℕ → ℕ → ℕ → Timer
armed now delay_ms cb arg = record {
  in_use = true;
  deadline_ticks = add32 now (ticks_of delay_ms);
  cb = cb;
  arg = arg;
}

-- The search for a free slot from slot `i` on.
pub add_from : ℕ → Timer → List Timer → Option ℕ × List Timer
add_from i new [] = (none, [])
add_from i new (s ∷ t) =
    let (r, t') = add_from (i + 1) new t in
    if s.in_use then (r, s ∷ t') else (some (i + 1), new ∷ t)

-- A callback that is 0 is NULL. The result is the handle.
pub timer_add : ℕ → ℕ → ℕ → ℕ → List Timer → Option ℕ × List Timer
timer_add now delay_ms cb arg t =
    if cb == 0 then (none, t) else add_from 0 (armed now delay_ms cb arg) t

pub timer_cancel : ℤ → List Timer → Bool × List Timer
timer_cancel (negsuc _) t = (false, t)
timer_cancel (pos handle) t =
    if handle == 0 || ltb timer_max handle
    then (false, t)
    else (true, set t (handle - 1) (record (timer t (handle - 1)) { in_use = false }))

-- `(int)(now - deadline) >= 0`
abbrev pub expired : ℕ → ℕ → Bool
expired now deadline = ltb (sub32 now deadline) (2 ^ 31)

abbrev pub fires : ℕ → Timer → Bool
fires now s = s.in_use && expired now s.deadline_ticks

-- The loop of `timer_tick` with `left` slots to go from slot `i` on. The callbacks are `call`, which may
-- change the table; the slot is free again before its callback runs. The result lists the calls made.
pub tick_from :
    (ℕ → ℕ → List Timer → List Timer) → ℕ → ℕ → ℕ → List Timer → List (ℕ × ℕ) × List Timer
tick_from call now zero i t = ([], t)
tick_from call now (suc left) i t =
    let s = timer t i in
    let fired = fires now s in
    let after = call s.cb s.arg (set t i (record s { in_use = false })) in
    let (calls, t') = tick_from call now left (i + 1) (if fired then after else t) in
    (if fired then (s.cb, s.arg) ∷ calls else calls, t')

pub timer_tick : (ℕ → ℕ → List Timer → List Timer) → ℕ → List Timer → List (ℕ × ℕ) × List Timer
timer_tick call now t = tick_from call now timer_max 0 t

pub timer_active_count : List Timer → ℕ
timer_active_count [] = 0
timer_active_count (s ∷ t) = let n = timer_active_count t in if s.in_use then n + 1 else n
