-- ===== src/Wheels/Levels/Tests.antt =====
-- A manager with two timers, one of them periodic.
use pqnet.Common.{ℕ, ◌+◌, ◌≡◌, ◌⊎◌, inl, inr, refl, none, some, [], ◌∷◌, arith}
use pqnet.Common.Words.{mul_uint}
use pqnet.Wheels.Levels.Defs.{TimerNode, TimerManager, new, add_timer, del_timer}
use pqnet.Wheels.Levels.Cascading.{Has, Kept}
use pqnet.Wheels.Levels.Ticking.{IsSound}
use pqnet.Wheels.Levels.Handling.{new-IsSound, add_timer-IsSound}
use pqnet.Wheels.Levels.Deleting.{TakesOut, Meets, Misses, deletes_or_compares}

-- std::hash as the identity
abbrev same : ℕ → ℕ
same sid = sid

abbrev empty : TimerManager
empty = new 1000

empty-IsSound : IsSound empty
empty-IsSound = new-IsSound 1000 (omega arith)

abbrev once : TimerManager
once = add_timer same 16 1 4 5 2 0 empty

abbrev ticker : TimerNode
ticker = record { address = 32; sid = 2; timercb = 4; arg = 6; interval = 1; endtime = 1000 + 1000 }

-- A ticker of 1 ms, from 1 ms on.
abbrev both : TimerManager
both = add_timer same 32 2 4 6 1 1 once

once-IsSound : IsSound once
unfolding new
once-IsSound = (add_timer-IsSound same 16 1 4 5 2 0 empty empty-IsSound (inl refl)).0

add_timer-IsSound_example :
    IsSound both
    × Has (record ticker { endtime = once.jiffies + mul_uint 1 1000 }) both.slots
    × Kept once.slots both.slots
    × (both.jiffies ≡ once.jiffies)
add_timer-IsSound_example =
    add_timer-IsSound same 32 2 4 6 1 1 once once-IsSound (inr (omega arith))

-- Two timers of the id 1, one of 3.
abbrev shared : TimerManager
shared = record empty { htable = λ b. (48, 3) ∷ (16, 1) ∷ (32, 1) ∷ [] }

deletes_or_compares_example :
    (Misses same 1 ((32, 1) ∷ [])
      × (m' : TimerManager) × (del_timer same 16 1 shared ≡ some m')
      × TakesOut 16 shared m')
    ⊎ (Meets same 1 ((32, 1) ∷ []) × (del_timer same 16 1 shared ≡ none))
deletes_or_compares_example =
    deletes_or_compares same 1 16 ((48, 3) ∷ []) ((32, 1) ∷ []) shared refl
      ((λ e. absurd (omega arith)), tt)
