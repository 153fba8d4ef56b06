-- ===== src/Wheels/Levels/Balance.antt =====
-- The nodes that cascades and the walk of a slot move: none is lost or doubled.
use pqnet.Common.{
  ℕ, ◌+◌, ◌/◌, ◌%◌, ◌*◌, ◌^◌, ◌≤◌, ◌∙◌, ◌≡◌, inl, inr, refl, sym, ap, Bool, true, false, ◌&&◌, not,
  Option, none, some, List, [], ◌∷◌, ◌++◌, ◌==◌, if◌then◌else◌, Bool-cases, Option-cases, All,
  arith,
}
use mathlib.Core.Path.{subst}
use pqnet.Wheels.Levels.Defs.{
  TimerNode, is_periodic, Wheel, tw1, TimerManager, clear, add_timer_node, lands, is_last,
  move_each, cascade, cascades, wheels, is_marked, renewed, serve, serve_each,
}
use pqnet.Wheels.Levels.Counting.{
  count, total, width, count-append, total-clear, total-add_timer_node,
}

-- The periodic nodes, set again from their ends.
abbrev pub renewals : List TimerNode → List TimerNode
renewals [] = []
renewals (x ∷ xs) = if is_periodic x then renewed x.endtime x ∷ renewals xs else renewals xs

pub renewals-append : (xs ys : List TimerNode) → renewals (xs ++ ys) ≡ renewals xs ++ renewals ys
renewals-append [] ys = refl
renewals-append (x ∷ xs) ys = elim (Bool-cases (is_periodic x)) [
  | inl e ↦ rw e (ap (λ zs. renewed x.endtime x ∷ zs) (renewals-append xs ys))
  | inr e ↦ rw e (renewals-append xs ys)
]

module _ (p : TimerNode → Bool) where
  -- What is returned has so many nodes.
  abbrev pub Totals : ℕ → Option TimerManager → Type 0
  Totals n none = Unit
  Totals n (some m) = total p m.slots ≡ n

  abbrev pub PairTotals : ℕ → Option (ℕ × TimerManager) → Type 0
  PairTotals n none = Unit
  PairTotals n (some (i, m)) = total p m.slots ≡ n

  Totals-if :
      (b : Bool) (n : ℕ) (r : Option TimerManager) → Totals n r → Totals n (if b then none else r)
  Totals-if true n r h = tt
  Totals-if false n r h = h

  move_each-Totals :
      (w : Wheel) (i : ℕ) (ns : List TimerNode) (m : TimerManager) (n : ℕ)
      → count p ns + total p m.slots ≡ n
      → Totals n (move_each w i ns m)
  unfolding move_each
  move_each-Totals w i [] m n h = omega arith
  move_each-Totals w i (x ∷ ns) m n h =
      let e = total-add_timer_node p x m in
      Totals-if (lands w i m.jiffies x && not (is_last ns)) n
        (move_each w i ns (add_timer_node x m))
        (move_each-Totals w i ns (add_timer_node x m) n (omega arith))

  cascade-Totals :
      (w : Wheel) (k : ℕ) (m : TimerManager)
      → 64 ≤ width p w
      → PairTotals (total p m.slots) (cascade w k m)
  unfolding cascade
  cascade-Totals w k m l =
      let i = (m.jiffies / 2 ^ (8 + k * 6)) % 64 in
      let m0 = record m { slots = clear w i m.slots } in
      let h =
        move_each-Totals w i (m.slots w i) m0 (total p m.slots)
          (sym (total-clear p w i m.slots (omega arith))) in
      elim (Option-cases (move_each w i (m.slots w i) m0)) [
        | inl e ↦ rw e tt
        | inr (m1, e) ↦ rw e (subst (Totals (total p m.slots)) e h)
      ]

  abbrev AllWide : List (Wheel × ℕ) → Type 0
  AllWide ws = All (λ v. 64 ≤ width p v.0) ws

  cascades-Totals :
      (ws : List (Wheel × ℕ)) (m : TimerManager) (n : ℕ)
      → AllWide ws
      → total p m.slots ≡ n
      → Totals n (cascades ws m)
  unfolding cascades
  cascades-Totals [] m n a h = h
  cascades-Totals ((w, k) ∷ ws) m n (l, a) h =
      let c = cascade-Totals w k m l in
      elim (Option-cases (cascade w k m)) [
        | inl e ↦ rw e tt
        | inr ((i, m1), e) ↦
            let d : total p m1.slots ≡ n = subst (PairTotals (total p m.slots)) e c ∙ h in
            let f = cascades-Totals ws m1 n a d in
            rw e (elim (Bool-cases (i == 0)) [ inl t ↦ rw t f | inr t ↦ rw t d ])
      ]

  -- The cascades of a tick, or none.
  pub cascaded-Totals :
      (m m' : TimerManager)
      → (if m.jiffies % 256 == 0 then cascades wheels m else some m) ≡ some m'
      → total p m'.slots ≡ total p m.slots
  cascaded-Totals m m' e =
      subst (Totals (total p m.slots)) e (elim (Bool-cases (m.jiffies % 256 == 0)) [
        | inl t ↦ rw t (
            cascades-Totals wheels m (total p m.slots)
              (omega arith, (omega arith, (omega arith, (omega arith, tt)))) refl)
        | inr t ↦ rw t refl
      ])

  serve-total :
      (i : ℕ) (x : TimerNode) (m : TimerManager)
      → m.rm_node ≡ none
      → x.endtime ≡ m.jiffies
      → (total p (serve i x m).slots ≡ count p (renewals (x ∷ [])) + total p m.slots)
        × ((serve i x m).rm_node ≡ none)
        × ((serve i x m).jiffies ≡ m.jiffies)
  unfolding serve add_timer_node
  serve-total i x m e f = rw e (elim (Bool-cases (is_periodic x)) [
    | inl t ↦
        let h = total-add_timer_node p (renewed m.jiffies x) m in
        rw t (rw f (omega arith, refl, refl))
    | inr t ↦ rw t (omega arith, refl, refl)
  ])

  serve_each-Totals :
      (i : ℕ) (ns : List TimerNode) (m : TimerManager) (n : ℕ)
      → m.rm_node ≡ none
      → All (λ x. x.endtime ≡ m.jiffies) ns
      → count p (renewals ns) + total p m.slots ≡ n
      → Totals n (serve_each i ns m)
  unfolding serve_each
  serve_each-Totals i [] m n e a h = omega arith
  serve_each-Totals i (x ∷ ns) m n e (f, a) h =
      let (t, e1, j) = serve-total i x m e f in
      let m1 = serve i x m in
      let a1 = subst (λ k. All (λ y. y.endtime ≡ k) ns) (sym j) a in
      let g : count p (renewals (x ∷ ns)) ≡ count p (renewals (x ∷ [])) + count p (renewals ns) =
        rw (renewals-append (x ∷ []) ns) (count-append p (renewals (x ∷ [])) (renewals ns)) in
      let again = lands tw1 i m.jiffies (renewed m.jiffies x) && not (is_last ns) in
      Totals-if (is_periodic x && again && not (is_marked m.rm_node x.address)) n
        (serve_each i ns m1) (serve_each-Totals i ns m1 n e1 a1 (omega arith))

  pub serve_each-total :
      (i : ℕ) (ns : List TimerNode) (m m' : TimerManager)
      → m.rm_node ≡ none
      → All (λ x. x.endtime ≡ m.jiffies) ns
      → serve_each i ns m ≡ some m'
      → total p m'.slots ≡ count p (renewals ns) + total p m.slots
  serve_each-total i ns m m' e a h =
      let n = count p (renewals ns) + total p m.slots in
      subst (Totals n) h (serve_each-Totals i ns m n e a refl)
