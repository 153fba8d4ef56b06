-- ===== src/LoopPool/Defs.antt =====
-- eventloopthreadpool.h and eventloopthreadpool.cpp. An event loop is a handle; `none` is an index
-- out of the vector.
use pqnet.Common.{
  ℕ, zero, suc, Option, some, List, [], ◌∷◌, length, get_elem?, leb, if◌then◌else◌, ◌>>=◌,
}
use pqnet.Common.Words.{add_size}

pub record LoopPool : Type 0 where
  pub curr_index : ℕ
  pub ev_thread_count : ℕ
  pub ev_thread_pool : List ℕ

-- `loops` are the event loops of the threads that the constructor makes.
unfoldable pub new : List ℕ → LoopPool
new loops = record { curr_index = 0; ev_thread_count = length loops; ev_thread_pool = loops }

unfoldable pub size : LoopPool → ℕ
size p = length p.ev_thread_pool

unfoldable pub get_event_loop_by_index : ℕ → LoopPool → Option ℕ
get_event_loop_by_index index p = get_elem? p.ev_thread_pool index

-- `currIndex++`, and back to 0 at the end
unfoldable pub advance : LoopPool → LoopPool
advance p =
    let i = add_size p.curr_index 1 in
    record p { curr_index = if leb p.ev_thread_count i then 0 else i }

unfoldable pub get_next_event_loop : LoopPool → Option (ℕ × LoopPool)
get_next_event_loop p =
    get_elem? p.ev_thread_pool p.curr_index >>= λ looper. some (looper, advance p)

-- The loops that a number of calls hand out, and the pool after them.
unfoldable pub next_loops : ℕ → LoopPool → Option (List ℕ × LoopPool)
next_loops zero p = some ([], p)
next_loops (suc n) p = do
  (looper, p1) ← get_next_event_loop p
  (rest, p2) ← next_loops n p1
  some (looper ∷ rest, p2)
