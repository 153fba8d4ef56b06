-- ===== src/Functors/Tests.antt =====
-- A round of two functors, one of which pushes a third.
use pqnet.Common.{ℕ, ◌+◌, ◌≡◌, List, [], ◌∷◌, ◌++◌}
use pqnet.Functors.Defs.{Loop, run_functors}
use pqnet.Functors.Laws.{pushed, run_functors_lem}

abbrev two_waiting : Loop
two_waiting = record { functors = 4 ∷ 9 ∷ []; ran = []; wakes = 2 }

abbrev pushes_next : ℕ → List ℕ
pushes_next func = (func + 1) ∷ []

run_functors_lem_example :
    ((run_functors pushes_next two_waiting).ran ≡ [] ++ 4 ∷ 9 ∷ [])
    × ((run_functors pushes_next two_waiting).functors ≡ pushed pushes_next (4 ∷ 9 ∷ []))
run_functors_lem_example = run_functors_lem pushes_next two_waiting
