-- ===== src/LockFree/Spsc/Tests.antt =====
-- Two threads on an array of three.
use pqnet.Common.{ℕ, ◌≡◌, ◌≢◌, refl, List, [], ◌∷◌, ◌++◌, arith}
use pqnet.LockFree.Spsc.Defs.{
  Op, push, pop, produces, consumes, new, after, push_step, pop_step, step, runs,
}
use pqnet.LockFree.Spsc.Window.{window}
use pqnet.LockFree.Spsc.Fifo.{runs_fifo, runs_apart}

abbrev slots : List ℕ
slots = 0 ∷ 0 ∷ 0 ∷ []

-- The third push finds the queue full: one slot stays free.
abbrev interleaving : List (Op ℕ)
interleaving =
    push 5
    ∷ pop
    ∷ produces
    ∷ consumes
    ∷ produces
    ∷ produces
    ∷ push 6
    ∷ pop
    ∷ produces
    ∷ produces
    ∷ produces
    ∷ push 7
    ∷ consumes
    ∷ produces
    ∷ consumes
    ∷ consumes
    ∷ []

interleaving_run : (runs 3 interleaving (new slots)).pushed ≡ 5 ∷ 6 ∷ []
unfolding runs step push_step pop_step after new
interleaving_run = refl

runs_fifo_example :
    (runs 3 interleaving (new slots)).pushed
    ≡ (runs 3 interleaving (new slots)).popped
      ++ window
          (runs 3 interleaving (new slots)).slots
          (runs 3 interleaving (new slots)).n_head
          (runs 3 interleaving (new slots)).n_tail
runs_fifo_example = runs_fifo slots interleaving (omega arith) (omega arith)

-- The producer is about to write slot 1, the consumer to read slot 0.
abbrev meeting : List (Op ℕ)
meeting = push 5 ∷ produces ∷ produces ∷ produces ∷ push 6 ∷ produces ∷ pop ∷ consumes ∷ []

runs_apart_example : ◌≢◌ {A = ℕ} 1 0
unfolding runs step push_step pop_step after new
runs_apart_example = runs_apart slots meeting 6 1 2 0 (omega arith) (omega arith) refl refl
