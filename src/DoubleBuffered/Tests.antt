-- ===== src/DoubleBuffered/Tests.antt =====
-- A pop that exchanges the buffers while two elements are pushed.
use pqnet.Common.{ℕ, ◌≡◌, List, [], ◌∷◌}
use pqnet.DoubleBuffered.Defs.{new, Op, pushes, pops, outs, queue_outs}
use pqnet.DoubleBuffered.Refines.{double-refines}

abbrev ops : List (Op ℕ)
ops = pushes 4 ∷ pops (5 ∷ []) (6 ∷ []) ∷ pops [] [] ∷ pops [] [] ∷ []

double-refines_example : outs ops new ≡ queue_outs ops []
double-refines_example = double-refines ops
