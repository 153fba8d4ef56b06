-- ===== src/Locks/RwLock/Defs.antt =====
-- rwlock.h, over any number of threads. What runs under the mutex is one step; a thread that waits
-- on a condition tests its predicate again whenever it is woken, by a notification or without one.
-- A guard locks when it is made and unlocks when it goes.
use pqnet.Common.{
  ℕ, Bool, true, false, not, ◌&&◌, Option, some, List, [], ◌∷◌, ltb, ◌==◌, if◌then◌else◌, get_elem?,
  set,
}
use pqnet.Common.Words.{add_size, sub_size}

pub data Thread : Type 0 where
  free rd_waiting reading wr_waiting writing : Thread

pub data Note : Type 0 where
  -- `rcond.notify_all()` and `wcond.notify_one()`
  readers_notified writer_notified : Note

pub record RwLock : Type 0 where
  pub wflag : Bool
  pub rcnt : ℕ
  pub wcnt : ℕ
  pub threads : List Thread
  -- the notifications, latest first
  pub notes : List Note

unfoldable pub new : List Thread → RwLock
new threads = record { wflag = false; rcnt = 0; wcnt = 0; threads = threads; notes = [] }

module _ (i : ℕ) (l : RwLock) where
  abbrev pub goes : Thread → List Thread
  goes t = set l.threads i t

  -- `rdLock` from the test of its predicate on
  unfoldable pub rd_lock : RwLock
  rd_lock =
      if l.wcnt == 0
      then record l { rcnt = add_size l.rcnt 1; threads = goes reading }
      else record l { threads = goes rd_waiting }

  unfoldable pub rd_unlock : RwLock
  rd_unlock =
      let rcnt = sub_size l.rcnt 1 in
      record l {
        rcnt = rcnt;
        threads = goes free;
        notes = if rcnt == 0 && ltb 0 l.wcnt then writer_notified ∷ l.notes else l.notes;
      }

  -- `wrLock` from the test of its predicate on
  unfoldable pub wr_enter : RwLock
  wr_enter =
      if l.rcnt == 0 && not l.wflag
      then record l { wflag = true; threads = goes writing }
      else record l { threads = goes wr_waiting }

  unfoldable pub wr_unlock : RwLock
  wr_unlock =
      let wcnt = sub_size l.wcnt 1 in
      record l {
        wflag = false;
        wcnt = wcnt;
        threads = goes free;
        notes = (if wcnt == 0 then readers_notified else writer_notified) ∷ l.notes;
      }

unfoldable pub wr_lock : ℕ → RwLock → RwLock
wr_lock i l = wr_enter i (record l { wcnt = add_size l.wcnt 1 })

pub data Op : Type 0 where
  rd_locks wr_locks unlocks wakes : ℕ → Op

-- A thread locks when it holds nothing, unlocks what it holds, and wakes when it waits.
unfoldable pub act : Op → Option Thread → RwLock → RwLock
act (rd_locks i) (some free) l = rd_lock i l
act (wr_locks i) (some free) l = wr_lock i l
act (unlocks i) (some reading) l = rd_unlock i l
act (unlocks i) (some writing) l = wr_unlock i l
act (wakes i) (some rd_waiting) l = rd_lock i l
act (wakes i) (some wr_waiting) l = wr_enter i l
act _ _ l = l

abbrev pub thread_of : Op → ℕ
thread_of (rd_locks i) = i
thread_of (wr_locks i) = i
thread_of (unlocks i) = i
thread_of (wakes i) = i

unfoldable pub step : Op → RwLock → RwLock
step op l = act op (get_elem? l.threads (thread_of op)) l

unfoldable pub runs : List Op → RwLock → RwLock
runs [] l = l
runs (op ∷ ops) l = runs ops (step op l)
