-- ===== src/Timers/Fd.antt =====
-- raw-examples/linux/timerqueue/timerqueue.h and timerqueue.cpp: the queue of pqnet/core/timerqueue.cpp,
-- kept with a timer of the kernel that is set for its first timer. Its loop in `handle` is the same
-- text. Each call of timerfd_settime(2) is kept, latest first, with the reading of the clock that it
-- rests on; what callbacks of `handle` set is left out, since `handle` sets the timer after them.
use pqnet.Common.{
  ℕ, Bool, true, Option, none, some, List, [], ◌∷◌, ltb, ◌==◌, if◌then◌else◌, ◌%◌, ◌>>=◌,
}
use pqnet.Common.Words.{uint_mod, add_size, sub_size}
use pqnet.TimeStamp
use pqnet.TimeStamp.{ms2_sec_and_nsec, us2_sec_and_nsec}
use pqnet.Timers.Defs
use pqnet.Timers.Defs.{
  Timer, Entry, TimerQueue, World, User, Outcome, done, dangling, unfinished, insert, wait_of,
}

-- `struct itimerspec`: it_value and it_interval in seconds and nanoseconds.
pub record Itimerspec : Type 0 where
  pub at : ℕ
  pub it_value : ℕ × ℕ
  pub it_interval : ℕ × ℕ

pub record FdQueue : Type 0 where
  pub queue : TimerQueue
  pub settings : List Itimerspec

abbrev pub disarmed : ℕ → Itimerspec
disarmed t = record { at = t; it_value = (0, 0); it_interval = (0, 0) }

-- `tmqueue.empty()`, or `endtime < head->first`
abbrev pub goes_first : ℕ → List Entry → Bool
goes_first endtime [] = true
goes_first endtime (head ∷ es) = ltb endtime head.0

unfoldable pub add_timer : ℕ → ℕ → ℕ → ℕ → ℕ → ℕ → FdQueue → FdQueue
add_timer address t cb arg expiration interval q =
    let timer : Timer = record { timercb = cb; arg = arg; id = address; interval = interval } in
    let endtime = add_size t (wait_of expiration) in
    let value = if ltb 0 expiration then ms2_sec_and_nsec expiration else us2_sec_and_nsec 100 in
    let its : Itimerspec = record {
      at = t;
      it_value = value;
      it_interval = ms2_sec_and_nsec interval;
    } in
    record {
      queue = record (q.queue) { tmqueue = insert (endtime, timer) q.queue.tmqueue };
      settings = if goes_first endtime q.queue.tmqueue then its ∷ q.settings else q.settings;
    }

-- The setting for the first timer, at a reading of the clock.
unfoldable pub setting_for : ℕ → List Entry → Itimerspec
setting_for t [] = disarmed t
setting_for t (head ∷ es) = record {
  at = t;
  it_value = us2_sec_and_nsec (sub_size head.0 t % uint_mod);
  it_interval = ms2_sec_and_nsec head.1.interval;
}

-- At the timer of the id: set anew where it is the first, for the one after it.
unfoldable pub rearmed : ℕ → ℕ → List Entry → List Itimerspec → List Itimerspec
rearmed id t [] ss = ss
rearmed id t (e ∷ es) ss = if e.1.id == id then setting_for t es ∷ ss else ss

unfoldable pub del_timer : ℕ → ℕ → FdQueue → FdQueue
del_timer id t q = record {
  queue = Defs.del_timer id q.queue;
  settings = rearmed id t q.queue.tmqueue q.settings;
}

abbrev pub reset : ℕ → List Itimerspec → Outcome → Option (World × List Itimerspec)
reset t ss (done w) = some (w, setting_for t w.queue.tmqueue ∷ ss)
reset t ss _ = none

unfoldable pub handle : User → ℕ → ℕ → World → List Itimerspec → Option (World × List Itimerspec)
handle user fuel t w ss = reset t ss (Defs.handle user fuel (TimeStamp.now t) w)

-- A call of one of the three.
pub data Op : Type 0 where
  adds : ℕ → ℕ → ℕ → ℕ → ℕ → ℕ → Op
  deletes : ℕ → ℕ → Op
  handles : User → ℕ → ℕ → List Timer → Op

unfoldable pub step : Op → FdQueue → Option FdQueue
step (adds address t cb arg expiration interval) q =
    some (add_timer address t cb arg expiration interval q)
step (deletes id t) q = some (del_timer id t q)
step (handles user fuel t ran) q =
    handle user fuel t (record { queue = q.queue; ran = ran }) q.settings >>= λ (w, ss).
    some (record { queue = w.queue; settings = ss })
