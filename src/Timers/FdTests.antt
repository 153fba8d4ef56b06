-- ===== src/Timers/FdTests.antt =====
-- A queue with one timer of two seconds, a second one that ends first, and the two deletions.
use pqnet.Common.{ℕ, ◌-◌, ◌*◌, ◌%◌, ◌^◌, ◌≡◌, refl, [], ◌∷◌, arith}
use pqnet.Timers.Defs.{Entry}
use pqnet.Timers.Fd.{FdQueue, add_timer, del_timer, step, adds}
use pqnet.Timers.Arming.{Latest, wait_ns, IsArmed, step-IsArmed}
use pqnet.Timers.Overdue.{overdue}

abbrev empty : FdQueue
empty = record { queue = record { rh_timer_id = 0; tmqueue = [] }; settings = [] }

abbrev one : FdQueue
one = add_timer 16 1000000 1 2 2000 0 empty

abbrev two : FdQueue
two = add_timer 32 1500000 3 4 250 250 one

one-IsArmed : IsArmed one.queue.tmqueue one.settings
unfolding step
one-IsArmed = step-IsArmed (adds 16 1000000 1 2 2000 0) empty one refl (omega arith, omega arith) tt

step-IsArmed_example : IsArmed two.queue.tmqueue two.settings
unfolding step
step-IsArmed_example =
    step-IsArmed (adds 32 1500000 3 4 250 250) one two refl (omega arith, omega arith) one-IsArmed

abbrev entry : ℕ → ℕ → Entry
entry endtime id = (endtime, record { timercb = 1; arg = 2; id = id; interval = 0 })

abbrev late : FdQueue
late = record {
  queue = record { rh_timer_id = 0; tmqueue = entry 900 16 ∷ entry 950 32 ∷ [] };
  settings = [];
}

overdue_example :
    Latest
      (λ its. (its.at ≡ 1000) × (wait_ns its ≡ ((2 ^ 32 - 50) % 2 ^ 32) * 1000))
      (del_timer 16 1000 late).settings
overdue_example =
    overdue 1000 50 (entry 900 16) (entry 950 32) [] late refl refl (omega arith) (omega arith)
