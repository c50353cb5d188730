-- ===== src/Timer/Tests.antt =====
-- The timers on concrete input: a table with two timers, one of them due.
use stink_os.Base.{ℕ, ◌+◌, ◌<◌, ◌≡◌, ap, List, ◌∷◌, false, length, replicate, length-replicate}
use stink_os.Timer.{Timer, timer, no_timer, timer_max, armed, timer_tick}
use stink_os.Timer.Slots.{quiet, due, stopped, timer_tick-due}

abbrev table : List Timer
table =
    armed 100 10 7 1
    ∷ armed 100 5000 8 2
    ∷ replicate 14 (record { in_use = false; deadline_ticks = 0; cb = 0; arg = 0 })

table_size : length table ≡ timer_max
unfolding replicate
table_size = ap (λ n. 2 + n) (length-replicate {A = Timer} 14 no_timer)

timer_tick-due_example :
    ((timer_tick quiet 101 table).0 ≡ due 101 table)
    × ((j : ℕ)
        → j < timer_max
        → timer (timer_tick quiet 101 table).1 j ≡ stopped 101 (timer table j))
timer_tick-due_example = timer_tick-due 101 table table_size
