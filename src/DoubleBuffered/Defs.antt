-- ===== src/DoubleBuffered/Defs.antt =====
-- doublebufferedqueue.h. A `push` holds its mutex throughout, and is one step. A `pop` holds the
-- readers' mutex throughout, so that two never meet, but other threads push while it runs: `before`
-- are the elements pushed between its test and the end of its exchange, `behind` those pushed after.
-- `none` is `front()` of an empty queue.
use pqnet.Common.{Bool, not, ◌&&◌, Option, some, List, [], ◌∷◌, if◌then◌else◌, ◌>>=◌}
use pqnet.DoubleBuffered.Queue

pub record DoubleBufferedQueue (A : Type 0) : Type 0 where
  pub rq : List A
  pub wq : List A

module _ {A : Type 0} where
  unfoldable pub new : DoubleBufferedQueue A
  new = record { rq = []; wq = [] }

  unfoldable pub push : A → DoubleBufferedQueue A → DoubleBufferedQueue A
  push value q = record q { wq = Queue.push value q.wq }

  unfoldable pub push_all : List A → DoubleBufferedQueue A → DoubleBufferedQueue A
  push_all [] q = q
  push_all (x ∷ xs) q = push_all xs (push x q)

  unfoldable pub needs_swap : DoubleBufferedQueue A → Bool
  needs_swap q = Queue.empty q.rq && not (Queue.empty q.wq)

  unfoldable pub swap : DoubleBufferedQueue A → DoubleBufferedQueue A
  swap q = record { rq = q.wq; wq = q.rq }

  unfoldable pub pop : List A → List A → DoubleBufferedQueue A → Option (A × DoubleBufferedQueue A)
  pop before behind q = do
    let q1 = push_all before q
    let q2 = push_all behind (if needs_swap q then swap q1 else q1)
    (value, rest) ← Queue.pop q2.rq
    some (value, record q2 { rq = rest })

  unfoldable pub empty : DoubleBufferedQueue A → Bool
  empty q = Queue.empty q.rq && Queue.empty q.wq

pub data Op (A : Type 0) : Type 0 where
  pushes : A → Op A
  pops : List A → List A → Op A

module _ {A : Type 0} where
  -- What the pops return, in order.
  unfoldable pub outs : List (Op A) → DoubleBufferedQueue A → Option (List A)
  outs [] q = some []
  outs (pushes x ∷ ops) q = outs ops (push x q)
  outs (pops before behind ∷ ops) q = do
    (value, q1) ← pop before behind q
    values ← outs ops q1
    some (value ∷ values)

  -- The same of a `Queue` on which each `pop` is one step, before those pushes.
  unfoldable pub queue_outs : List (Op A) → List A → Option (List A)
  queue_outs [] q = some []
  queue_outs (pushes x ∷ ops) q = queue_outs ops (Queue.push x q)
  queue_outs (pops before behind ∷ ops) q = do
    (value, q1) ← Queue.pop q
    values ← queue_outs ops (Queue.push_all behind (Queue.push_all before q1))
    some (value ∷ values)
