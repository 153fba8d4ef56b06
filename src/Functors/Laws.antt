-- ===== src/Functors/Laws.antt =====
-- A round of functors.
use pqnet.Common.{ℕ, ◌≡◌, refl, sym, ap, ◌∙◌, List, [], ◌∷◌, ◌++◌, append-nil, append_assoc}
use pqnet.Functors.Defs.{Loop, wake, push_functor, push_all, run_each, run_functors}

-- All that the functors of a list push, in order.
abbrev pub pushed : (ℕ → List ℕ) → List ℕ → List ℕ
pushed user [] = []
pushed user (func ∷ funcs) = user func ++ pushed user funcs

push_all_lem :
    (fns : List ℕ) (w : Loop)
    → ((push_all fns w).functors ≡ w.functors ++ fns) × ((push_all fns w).ran ≡ w.ran)
unfolding push_all push_functor wake
push_all_lem [] w = (sym (append-nil w.functors), refl)
push_all_lem (fn ∷ fns) w =
    let (p, q) = push_all_lem fns (push_functor fn w) in
    (p ∙ append_assoc w.functors (fn ∷ []) fns, q)

run_each_lem :
    (user : ℕ → List ℕ) (funcs : List ℕ) (w : Loop)
    → ((run_each user funcs w).ran ≡ w.ran ++ funcs)
      × ((run_each user funcs w).functors ≡ w.functors ++ pushed user funcs)
unfolding run_each
run_each_lem user [] w = (sym (append-nil w.ran), sym (append-nil w.functors))
run_each_lem user (func ∷ funcs) w =
    let w1 : Loop = record w { ran = w.ran ++ func ∷ [] } in
    let (a, b) = push_all_lem (user func) w1 in
    let (p, q) = run_each_lem user funcs (push_all (user func) w1) in
    (
      p ∙ ap (λ t. t ++ funcs) b ∙ append_assoc w.ran (func ∷ []) funcs,
      q
          ∙ ap (λ t. t ++ pushed user funcs) a
          ∙ append_assoc w.functors (user func) (pushed user funcs),
    )

-- runFunctors runs the functors that were there when it began, each once and in the order in which
-- they were pushed; what they push waits, in order, for the next round.
pub run_functors_lem :
    (user : ℕ → List ℕ) (w : Loop)
    → ((run_functors user w).ran ≡ w.ran ++ w.functors)
      × ((run_functors user w).functors ≡ pushed user w.functors)
unfolding run_functors
run_functors_lem user w = run_each_lem user w.functors (record w { functors = [] })
