-- ===== src/LoopPool/Tests.antt =====
-- A pool of three followers.
use pqnet.Common.{ℕ, ◌≡◌, some, List, [], ◌∷◌, length, arith}
use pqnet.LoopPool.Defs.{new, next_loops}
use pqnet.LoopPool.Laws.{next_loops_round}

abbrev followers : List ℕ
followers = 5 ∷ 8 ∷ 11 ∷ []

next_loops_round_example :
    next_loops (length followers) (new followers) ≡ some (followers, new followers)
next_loops_round_example = next_loops_round followers (omega arith) (omega arith)
