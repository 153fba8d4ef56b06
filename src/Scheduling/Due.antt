-- ===== src/Scheduling/Due.antt =====
-- When a timer of runAt ends.
use pqnet.Common.{ℕ, ◌≡◌, ◌≤◌, ◌<◌, ◌+◌, ◌-◌, ◌*◌, ◌/◌, ◌⊎◌}
use pqnet.TimeStamp.{TimeStamp}
use pqnet.Timers.{Timer, TimerQueue, insert}

-- The queue with one more timer of one run.
abbrev pub with_timer : ℕ → ℕ → ℕ → ℕ → TimerQueue → TimerQueue
with_timer e address cb arg q =
    let tm : Timer = record { timercb = cb; arg = arg; id = address; interval = 0 } in
    record q { tmqueue = insert (e, tm) q.tmqueue }

-- The time at which the timer ends that runAt puts in, for a time of `due` milliseconds, at clocks
-- that read `tv` and then `tv'` microseconds.
abbrev pub IsDue : ℕ → ℕ → ℕ → ℕ → Type 0
IsDue due tv tv' e =
    ((tv / 1000 < due) × (due * 1000 ≤ e) × (e < due * 1000 + 1000 + (tv' - tv)))
    ⊎ ((due ≤ tv / 1000) × (e ≡ tv' + 100))
