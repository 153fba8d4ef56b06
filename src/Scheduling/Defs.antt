-- ===== src/Scheduling/Defs.antt =====
-- runAt, runAfter, runEvery and cancel of eventloop.cpp. `address` is the id that addTimer gives, and
-- each reading of the clock is an argument, in the order of the readings.
use pqnet.Common.{ℕ, ◌%◌, ltb, if◌then◌else◌}
use pqnet.Common.Words.{sub_size, uint_mod}
use pqnet.TimeStamp.{TimeStamp, int13}
use pqnet.Timers.{TimerQueue, add_timer, del_timer}

module _ (address : ℕ) (q : TimerQueue) where
  -- The difference is a uint64_t, and becomes addTimer's `uint`.
  unfoldable pub run_at : TimeStamp → TimeStamp → ℕ → ℕ → TimeStamp → ℕ × TimerQueue
  run_at now_ts later cb arg ts =
      let expiration = sub_size (int13 ts) (int13 now_ts) % uint_mod in
      if ltb (int13 now_ts) (int13 ts)
      then add_timer address later cb arg expiration 0 q
      else add_timer address later cb arg 0 0 q

  unfoldable pub run_after : TimeStamp → ℕ → ℕ → ℕ → ℕ × TimerQueue
  run_after now_ts cb arg expiration = add_timer address now_ts cb arg expiration 0 q

  unfoldable pub run_every : TimeStamp → ℕ → ℕ → ℕ → ℕ → ℕ × TimerQueue
  run_every now_ts cb arg expiration interval =
      add_timer address now_ts cb arg expiration interval q

unfoldable pub cancel : ℕ → TimerQueue → TimerQueue
cancel id q = del_timer id q
