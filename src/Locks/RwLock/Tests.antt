-- ===== src/Locks/RwLock/Tests.antt =====
-- Three threads at one lock.
use pqnet.Common.{◌≡◌, ◌⊎◌, refl, List, [], ◌∷◌, replicate, arith}
use pqnet.Locks.RwLock.Defs.{
  Op, rd_locks, wr_locks, unlocks, wakes, free, rd_waiting, writing, new, rd_lock, rd_unlock,
  wr_enter, wr_lock, wr_unlock, act, step, runs,
}
use pqnet.Locks.RwLock.Exclusion.{total, reads, writes, claims, runs_exclusive}

-- A reader holds the lock, a writer waits for it and a second reader for the writer.
abbrev contention : List Op
contention = rd_locks 0 ∷ wr_locks 1 ∷ rd_locks 2 ∷ wakes 1 ∷ unlocks 0 ∷ wakes 1 ∷ wakes 2 ∷ []

contention_run :
    (runs contention (new (replicate 3 free))).threads ≡ free ∷ writing ∷ rd_waiting ∷ []
unfolding runs step act rd_lock rd_unlock wr_enter wr_lock wr_unlock new
contention_run = refl

runs_exclusive_example :
    let l = runs contention (new (replicate 3 free)) in
    ((total writes l.threads ≡ 0) ⊎ ((total writes l.threads ≡ 1) × (total reads l.threads ≡ 0)))
    × (l.rcnt ≡ total reads l.threads)
    × (l.wcnt ≡ total claims l.threads)
runs_exclusive_example = runs_exclusive 3 contention (omega arith)
