-- ===== src/ThreadPool/Tests.antt =====
-- A pool of two workers, and the theorems at it.
use pqnet.Common.{◌≡◌, refl, true, List, [], ◌∷◌, ◌++◌}
use pqnet.ThreadPool.Defs.{
  Op, starts, shuts, asks, enters, turns, returns, left, init, run, shutdown, ask, enter, add_task,
  turn, worker_step, step, runs,
}
use pqnet.ThreadPool.Runs.{accepted, taken_in_order}
use pqnet.ThreadPool.Leaving.{AllCalm, leaving_drained}

abbrev busy_day : List Op
busy_day =
    asks 7
    ∷ enters 0
    ∷ starts
    ∷ turns 0
    ∷ asks 9
    ∷ asks 8
    ∷ enters 1
    ∷ enters 0
    ∷ turns 1
    ∷ returns 0
    ∷ shuts
    ∷ asks 10
    ∷ turns 0
    ∷ returns 1
    ∷ returns 0
    ∷ turns 1
    ∷ turns 0
    ∷ []

busy_day_run : (runs busy_day (init 2)).taken ≡ 7 ∷ 8 ∷ 9 ∷ []
unfolding runs step run shutdown ask enter add_task turn worker_step init
busy_day_run = refl

taken_in_order_example :
    (runs busy_day (init 2)).taken ++ (runs busy_day (init 2)).taskqueue
    ≡ ((init 2).taken ++ (init 2).taskqueue)
      ++ accepted ((init 2).addable) ((init 2).passed) busy_day
unfolding init
taken_in_order_example = taken_in_order busy_day (init 2) refl

busy_day_calm : AllCalm busy_day (init 2)
unfolding runs step run shutdown ask enter add_task turn worker_step init
busy_day_calm = (
  tt,
  (
    tt,
    (tt, (tt, (tt, (tt, (tt, (tt, (tt, (tt, (refl, (tt, (tt, (tt, (tt, (tt, (tt, tt))))))))))))))),
  ),
)

leaving_drained_example :
    ((runs busy_day (init 2)).taskqueue ≡ [])
    × ((runs busy_day (init 2)).taken ≡ accepted true [] busy_day)
unfolding runs step run shutdown ask enter add_task turn worker_step init
leaving_drained_example = leaving_drained 2 busy_day refl busy_day_calm refl

-- A caller is past the test when the pool is shut down, and its task stays in the queue.
abbrev race : List Op
race = starts ∷ asks 7 ∷ shuts ∷ turns 0 ∷ turns 1 ∷ enters 0 ∷ turns 0 ∷ turns 1 ∷ []

race_run :
    ((runs race (init 2)).taskqueue ≡ 7 ∷ []) × ((runs race (init 2)).workers ≡ left ∷ left ∷ [])
unfolding runs step run shutdown ask enter add_task turn worker_step init
race_run = (refl, refl)
