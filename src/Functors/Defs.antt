-- ===== src/Functors/Defs.antt =====
-- pushFunctor, wake and runFunctors. A functor is a handle; what it or another thread pushes while it
-- runs is the parameter `user`. What runs under the mutex is one step.
use pqnet.Common.{ℕ, ◌+◌, List, [], ◌∷◌, ◌++◌}

pub record Loop : Type 0 where
  pub functors : List ℕ
  -- the functors run, in order
  pub ran : List ℕ
  -- the writes to the event descriptor
  pub wakes : ℕ

unfoldable pub wake : Loop → Loop
wake w = record w { wakes = w.wakes + 1 }

unfoldable pub push_functor : ℕ → Loop → Loop
push_functor fn w = wake (record w { functors = w.functors ++ fn ∷ [] })

unfoldable pub push_all : List ℕ → Loop → Loop
push_all [] w = w
push_all (fn ∷ fns) w = push_all fns (push_functor fn w)

-- `func()` for each, which pushes what `user` says.
unfoldable pub run_each : (ℕ → List ℕ) → List ℕ → Loop → Loop
run_each user [] w = w
run_each user (func ∷ funcs) w =
    run_each user funcs (push_all (user func) (record w { ran = w.ran ++ func ∷ [] }))

-- `funcs.swap(functors)`, then each of `funcs`
unfoldable pub run_functors : (ℕ → List ℕ) → Loop → Loop
run_functors user w = run_each user w.functors (record w { functors = [] })
