-- ===== src/LoopPool/Laws.antt =====
-- Turns.
use pqnet.Common.{
  ℕ, zero, suc, ◌+◌, ◌^◌, ◌≡◌, ◌<◌, refl, ap, some, List, [], ◌∷◌, length, drop, get_elem?, leb,
  if◌then◌else◌, arith, drop_all,
}
use pqnet.Common.Words.{add_size}
use pqnet.LoopPool.Defs.{LoopPool, new, advance, get_next_event_loop, next_loops}

elem-drop :
    (xs : List ℕ) (i : ℕ)
    → i < length xs
    → (x : ℕ) × (get_elem? xs i ≡ some x) × (drop i xs ≡ x ∷ drop (suc i) xs)
elem-drop [] i h = absurd (omega arith)
elem-drop (x ∷ xs) zero h = (x, refl, refl)
elem-drop (x ∷ xs) (suc i) h = elem-drop xs i (omega arith)

abbrev pool_at : List ℕ → ℕ → LoopPool
pool_at loops i = record { curr_index = i; ev_thread_count = length loops; ev_thread_pool = loops }

advance_last :
    (loops : List ℕ) (i : ℕ)
    → length loops < 2 ^ 64
    → suc i ≡ length loops
    → advance (pool_at loops i) ≡ pool_at loops 0
unfolding advance
advance_last loops i h e =
    let f : (if leb (length loops) (add_size i 1) then 0 else add_size i 1) ≡ 0 = ground arith in
    ap (pool_at loops) f

advance_inside :
    (loops : List ℕ) (i : ℕ)
    → length loops < 2 ^ 64
    → suc i < length loops
    → advance (pool_at loops i) ≡ pool_at loops (suc i)
unfolding advance
advance_inside loops i h e =
    let f : (if leb (length loops) (add_size i 1) then 0 else add_size i 1) ≡ suc i =
      ground arith in
    ap (pool_at loops) f

-- From an index on, the calls hand out the loops up to the last one, and the next is the first.
rest_of_round :
    (loops : List ℕ) (m i : ℕ)
    → length loops < 2 ^ 64
    → i + suc m ≡ length loops
    → next_loops (suc m) (pool_at loops i) ≡ some (drop i loops, pool_at loops 0)
unfolding next_loops get_next_event_loop
rest_of_round loops zero i h e =
    let (x, g, d) = elem-drop loops i (omega arith) in
    let l : drop (suc i) loops ≡ [] = drop_all (suc i) loops (omega arith) in
    rw d (rw l (rw g (rw (advance_last loops i h (omega arith)) refl)))
rest_of_round loops (suc m) i h e =
    let (x, g, d) = elem-drop loops i (omega arith) in
    rw d (
      rw g (
        rw (advance_inside loops i h (omega arith))
          (rw (rest_of_round loops m (suc i) h (omega arith)) refl)))

-- Over as many calls as there are followers, one or more and fewer than 2^64, a pool that stands at
-- the first hands out the loop of each, in order and inside the vector, and stands at the first again.
pub next_loops_round :
    (loops : List ℕ)
    → 0 < length loops
    → length loops < 2 ^ 64
    → next_loops (length loops) (new loops) ≡ some (loops, new loops)
unfolding new
next_loops_round [] p h = absurd (omega arith)
next_loops_round (x ∷ loops) p h = rest_of_round (x ∷ loops) (length loops) 0 h (omega arith)

-- The index is inside the vector.
abbrev pub IsSound : LoopPool → Type 0
IsSound p =
    (p.ev_thread_count ≡ length p.ev_thread_pool)
    × (p.curr_index < length p.ev_thread_pool)
    × (length p.ev_thread_pool < 2 ^ 64)

inside : (xs : List ℕ) (i : ℕ) → i < length xs → (x : ℕ) × (get_elem? xs i ≡ some x)
inside xs i h = let (x, g, d) = elem-drop xs i h in (x, g)

pub advance-IsSound : (p : LoopPool) → IsSound p → IsSound (advance p)
unfolding advance
advance-IsSound p (c, i, l) = (c, ground (arith, c, i, l), l)

-- A sound pool hands out a loop.
pub get_next_event_loop_lem :
    (p : LoopPool) → IsSound p → (looper : ℕ) × (get_next_event_loop p ≡ some (looper, advance p))
unfolding get_next_event_loop
get_next_event_loop_lem p (c, i, l) =
    let (x, g) = inside p.ev_thread_pool p.curr_index i in (x, rw g refl)
