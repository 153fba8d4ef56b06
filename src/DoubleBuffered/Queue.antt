-- ===== src/DoubleBuffered/Queue.antt =====
-- `class Queue` of doublebufferedqueue.h: a queue under one mutex, each operation one step. `none` is
-- `front()` of an empty queue.
use pqnet.Common.{Bool, true, false, Option, none, some, List, [], ◌∷◌, ◌++◌}

module _ {A : Type 0} where
  unfoldable pub push : A → List A → List A
  push value q = q ++ value ∷ []

  unfoldable pub pop : List A → Option (A × List A)
  pop [] = none
  pop (value ∷ q) = some (value, q)

  unfoldable pub empty : List A → Bool
  empty [] = true
  empty (_ ∷ _) = false

  unfoldable pub push_all : List A → List A → List A
  push_all [] q = q
  push_all (x ∷ xs) q = push_all xs (push x q)
