-- ===== src/Locks/RwLock/Exclusion.antt =====
-- Writers exclude each other and readers.
use pqnet.Common.{
  ℕ, zero, suc, ◌+◌, ◌^◌, ◌≤◌, ◌<◌, ◌≡◌, refl, ap, ◌⊎◌, inl, inr, Bool, true, false, not, ◌&&◌,
  Option, some, List, [], ◌∷◌, arith, length, set, get_elem?, length-set, replicate,
  length-replicate, ◌==◌, if◌then◌else◌,
}
use pqnet.Common.Words.{add_size}
use pqnet.Locks.RwLock.Defs.{
  Thread, free, rd_waiting, reading, wr_waiting, writing, RwLock, new, rd_lock, rd_unlock, wr_enter,
  wr_lock, wr_unlock, Op, rd_locks, wr_locks, unlocks, wakes, act, thread_of, step, runs,
}

abbrev pub total : (Thread → ℕ) → List Thread → ℕ
total w [] = 0
total w (t ∷ ts) = w t + total w ts

total-set :
    (w : Thread → ℕ) (ts : List Thread) (i : ℕ) (t new : Thread)
    → get_elem? ts i ≡ some t
    → total w (set ts i new) + w t ≡ total w ts + w new
total-set w [] i t new e = absurd (cc)
total-set w (u ∷ ts) zero t new e = let f : u ≡ t = cc in omega (arith, ap w f)
total-set w (u ∷ ts) (suc i) t new e = omega (arith, total-set w ts i t new e)

abbrev pub reads : Thread → ℕ
reads reading = 1
reads _ = 0

abbrev pub writes : Thread → ℕ
writes writing = 1
writes _ = 0

-- Wants to write, or writes.
abbrev pub claims : Thread → ℕ
claims writing = 1
claims wr_waiting = 1
claims _ = 0

abbrev flag : Bool → ℕ
flag true = 1
flag false = 0

total-le : (w : Thread → ℕ) → ((t : Thread) → w t ≤ 1) → (ts : List Thread) → total w ts ≤ length ts
total-le w h [] = omega arith
total-le w h (t ∷ ts) = omega (arith, h t, total-le w h ts)

-- The counters count, and no reader is there with a writer.
record IsSound (l : RwLock) : Type 0 where
  few : length l.threads < 2 ^ 64
  readers : l.rcnt ≡ total reads l.threads
  claimers : l.wcnt ≡ total claims l.threads
  writers : flag l.wflag ≡ total writes l.threads
  apart : (l.wflag ≡ false) ⊎ (l.rcnt ≡ 0)

if-IsSound :
    (b : Bool) (l l' : RwLock)
    → ((b ≡ true) → IsSound l)
    → ((b ≡ false) → IsSound l')
    → IsSound (if b then l else l')
if-IsSound true l l' f g = f refl
if-IsSound false l l' f g = g refl

writes-claims : (ts : List Thread) → total writes ts ≤ total claims ts
writes-claims [] = omega arith
writes-claims (t ∷ ts) = ground (arith, writes-claims ts)

module _ (i : ℕ) (l : RwLock) (s : IsSound l) (t : Thread)
    (e : get_elem? l.threads i ≡ some t) where
  counted :
      (w : Thread → ℕ) (new : Thread)
      → total w (set l.threads i new) + w t ≡ total w l.threads + w new
  counted w new = total-set w l.threads i t new e

  bounded : (w : Thread → ℕ) → ((u : Thread) → w u ≤ 1) → total w l.threads < 2 ^ 64
  bounded w h = omega (arith, total-le w h l.threads, s.few)

  still_few : (new : Thread) → length (set l.threads i new) < 2 ^ 64
  still_few new = omega (arith, length-set l.threads i new, s.few)

  rd_lock-IsSound : reads t ≡ 0 → claims t ≡ 0 → writes t ≡ 0 → IsSound (rd_lock i l)
  unfolding rd_lock
  rd_lock-IsSound a b c =
      if-IsSound (l.wcnt == 0) _ _
        (λ z. record {
          few = still_few reading;
          readers = ground (
            arith,
            counted reads reading,
            s.readers,
            total-le reads (λ u. ground arith) (set l.threads i reading),
            still_few reading,
          );
          claimers = ground (arith, counted claims reading, s.claimers);
          writers = ground (arith, counted writes reading, s.writers);
          apart = ground (arith, writes-claims l.threads, s.claimers, s.writers);
        })
        (λ z. record {
          few = still_few rd_waiting;
          readers = ground (arith, counted reads rd_waiting, s.readers);
          claimers = ground (arith, counted claims rd_waiting, s.claimers);
          writers = ground (arith, counted writes rd_waiting, s.writers);
          apart = s.apart;
        })

  rd_unlock-IsSound : t ≡ reading → IsSound (rd_unlock i l)
  unfolding rd_unlock
  rd_unlock-IsSound a = record {
    few = still_few free;
    readers = ground (arith, counted reads free, s.readers, bounded reads (λ u. ground arith));
    claimers = ground (arith, counted claims free, s.claimers);
    writers = ground (arith, counted writes free, s.writers);
    apart = ground (arith, counted reads free, s.readers, s.apart);
  }

  wr_unlock-IsSound : t ≡ writing → IsSound (wr_unlock i l)
  unfolding wr_unlock
  wr_unlock-IsSound a = record {
    few = still_few free;
    readers = ground (arith, counted reads free, s.readers);
    claimers = ground (arith, counted claims free, s.claimers, bounded claims (λ u. ground arith));
    writers = ground (arith, counted writes free, s.writers);
    apart = inl refl;
  }

  -- A writer's turn, its claim being counted already: `n` is the counter.
  wr_enter-IsSound :
      (n : ℕ)
      → n + claims t ≡ suc (total claims l.threads)
      → reads t ≡ 0
      → writes t ≡ 0
      → IsSound (wr_enter i (record l { wcnt = n }))
  unfolding wr_enter
  wr_enter-IsSound n k a b =
      if-IsSound (l.rcnt == 0 && not l.wflag) _ _
        (λ z. record {
          few = still_few writing;
          readers = ground (arith, counted reads writing, s.readers);
          claimers = ground (arith, counted claims writing);
          writers = ground (arith, counted writes writing, s.writers);
          apart = inr (ground arith);
        })
        (λ z. record {
          few = still_few wr_waiting;
          readers = ground (arith, counted reads wr_waiting, s.readers);
          claimers = ground (arith, counted claims wr_waiting);
          writers = ground (arith, counted writes wr_waiting, s.writers);
          apart = s.apart;
        })

  wr_lock-IsSound : t ≡ free → IsSound (wr_lock i l)
  unfolding wr_lock
  wr_lock-IsSound a =
      let n : add_size l.wcnt 1 ≡ suc (total claims l.threads) = omega (
        arith,
        s.claimers,
        counted claims wr_waiting,
        total-le claims (λ u. ground arith) (set l.threads i wr_waiting),
        still_few wr_waiting,
        ap claims a,
      ) in
      wr_enter-IsSound (add_size l.wcnt 1) (omega (arith, n, ap claims a)) (ap reads a)
        (ap writes a)

act-IsSound :
    (op : Op) (l : RwLock) (w : Option Thread)
    → get_elem? l.threads (thread_of op) ≡ w
    → IsSound l
    → IsSound (act op w l)
unfolding act
act-IsSound (rd_locks i) l (some free) e s = rd_lock-IsSound i l s free e refl refl refl
act-IsSound (wr_locks i) l (some free) e s = wr_lock-IsSound i l s free e refl
act-IsSound (unlocks i) l (some reading) e s = rd_unlock-IsSound i l s reading e refl
act-IsSound (unlocks i) l (some writing) e s = wr_unlock-IsSound i l s writing e refl
act-IsSound (wakes i) l (some rd_waiting) e s = rd_lock-IsSound i l s rd_waiting e refl refl refl
act-IsSound (wakes i) l (some wr_waiting) e s =
    wr_enter-IsSound i l s wr_waiting e l.wcnt (omega (arith, s.claimers)) refl refl
act-IsSound op l w e s = s

runs-IsSound : (ops : List Op) (l : RwLock) → IsSound l → IsSound (runs ops l)
unfolding runs step
runs-IsSound [] l s = s
runs-IsSound (op ∷ ops) l s =
    runs-IsSound ops (act op (get_elem? l.threads (thread_of op)) l)
      (act-IsSound op l (get_elem? l.threads (thread_of op)) refl s)

total-free : (w : Thread → ℕ) (n : ℕ) → w free ≡ 0 → total w (replicate n free) ≡ 0
total-free w zero h = refl
total-free w (suc n) h = omega (arith, h, total-free w n h)

new-IsSound : (n : ℕ) → n < 2 ^ 64 → IsSound (new (replicate n free))
unfolding new
new-IsSound n h = record {
  few = omega (arith, length-replicate n free, h);
  readers = omega (arith, total-free reads n refl);
  claimers = omega (arith, total-free claims n refl);
  writers = omega (arith, total-free writes n refl);
  apart = inl refl;
}

flag_cases :
    (l : RwLock)
    → IsSound l
    → (total writes l.threads ≡ 0) ⊎ ((total writes l.threads ≡ 1) × (total reads l.threads ≡ 0))
flag_cases l s = ground (arith, s.writers, s.apart, s.readers)

-- However `n` threads lock, unlock and wake, fewer than 2^64 of them: no thread holds the write lock,
-- or one does and none holds the read lock. And the counters count: `rcnt` the readers, `wcnt` the
-- writers and those who wait to write.
pub runs_exclusive :
    (n : ℕ) (ops : List Op)
    → n < 2 ^ 64
    → let l = runs ops (new (replicate n free)) in
      ((total writes l.threads ≡ 0) ⊎ ((total writes l.threads ≡ 1) × (total reads l.threads ≡ 0)))
      × (l.rcnt ≡ total reads l.threads)
      × (l.wcnt ≡ total claims l.threads)
runs_exclusive n ops h =
    let l = runs ops (new (replicate n free)) in
    let s = runs-IsSound ops (new (replicate n free)) (new-IsSound n h) in
    (flag_cases l s, s.readers, s.claimers)
