-- ===== src/Wheels/Levels/Cascading.antt =====
-- `cascade`: nodes move to lower wheels when their slot's time has come.
use pqnet.Common.{
  ℕ, suc, ◌%◌, ◌≤◌, ◌≡◌, ◌≢◌, ◌⊎◌, inl, inr, refl, sym, Bool, true, false, ◌&&◌, some, List, [],
  ◌∷◌, ◌++◌, ◌==◌, if◌then◌else◌, Bool-cases, All, arith,
}
use mathlib.Core.Path.{subst}
use pqnet.Wheels.Levels.Defs.{
  TimerNode, Wheel, tw1, same_wheel, Slots, TimerManager, push_back, clear, slot_of, add_timer_node,
  move_each,
}
use pqnet.Wheels.Levels.Placing.{
  unit, index_of, Stands, AllStand, slot_of-Placed, push_back-All, slot_of-ne, same_wheel_eq,
  same_wheel_refl, reach,
}

abbrev pub Elem : TimerNode → List TimerNode → Type 0
Elem x [] = ⊥
Elem x (y ∷ ys) = (x ≡ y) ⊎ Elem x ys

abbrev pub Has : TimerNode → Slots → Type 0
Has x s = (w : Wheel) × (i : ℕ) × Elem x (s w i)

abbrev pub Kept : Slots → Slots → Type 0
Kept s s' = (x : TimerNode) → Has x s → Has x s'

pub Elem-append : (x y : TimerNode) (xs : List TimerNode) → Elem x xs → Elem x (xs ++ y ∷ [])
Elem-append x y [] h = absurd h
Elem-append x y (z ∷ xs) (inl e) = inl e
Elem-append x y (z ∷ xs) (inr h) = inr (Elem-append x y xs h)

pub Elem-append_last : (y : TimerNode) (xs : List TimerNode) → Elem y (xs ++ y ∷ [])
Elem-append_last y [] = inl refl
Elem-append_last y (z ∷ xs) = inr (Elem-append_last y xs)

Elem-if :
    (b : Bool) (x : TimerNode) (xs ys : List TimerNode)
    → Elem x xs
    → Elem x ys
    → Elem x (if b then xs else ys)
Elem-if true x xs ys h k = h
Elem-if false x xs ys h k = k

pub Kept-push_back : (w : Wheel) (i : ℕ) (y : TimerNode) (s : Slots) → Kept s (push_back w i y s)
unfolding push_back
Kept-push_back w i y s x (w', i', h) = (
  w',
  i',
  Elem-if (same_wheel w w' && i == i') x (s w' i' ++ y ∷ []) (s w' i') (Elem-append x y (s w' i') h)
      h,
)

pub Has-push_back : (w : Wheel) (i : ℕ) (y : TimerNode) (s : Slots) → Has y (push_back w i y s)
unfolding push_back
Has-push_back w i y s =
    let e : (same_wheel w w && i == i) ≡ true = rw (same_wheel_refl w) (ground arith) in
    (w, i, rw e (Elem-append_last y (s w i)))

-- What is not in the emptied slot stays.
pub Has-clear :
    (w : Wheel) (i : ℕ) (s : Slots) (x : TimerNode) → Has x s → Elem x (s w i) ⊎ Has x (clear w i s)
unfolding clear
Has-clear w i s x (w', i', h) = elim (Bool-cases (same_wheel w w' && i == i')) [
  | inl e ↦
      let f : same_wheel w w' ≡ true = ground (arith, e) in
      let g : i' ≡ i = ground (arith, e) in
      inl (
        subst (λ v. Elem x (s v i)) (sym (same_wheel_eq w w' f)) (subst (λ k. Elem x (s w' k)) g h))
  | inr e ↦ inr (w', i', rw e h)
]

module _ (lo lo' : Wheel → ℕ) (w : Wheel) where
  -- The nodes of a slot whose time has come all find a lower wheel.
  pub move_each_lem :
      (ns : List TimerNode) (m : TimerManager)
      → w ≢ tw1
      → m.jiffies % unit w ≡ 0
      → m.jiffies ≤ lo w
      → lo' tw1 ≤ m.jiffies
      → ((v : Wheel) → lo' v ≤ suc m.jiffies)
      → All (Stands lo m.jiffies w (index_of w m.jiffies)) ns
      → AllStand lo' m.jiffies m.slots
      → (s : Slots) × (move_each w (index_of w m.jiffies) ns m ≡ some (record m { slots = s }))
        × AllStand lo' m.jiffies s
        × Kept m.slots s
        × ((x : TimerNode) → Elem x ns → Has x s)
  unfolding move_each add_timer_node
  move_each_lem [] m n z b b1 b2 p a = (m.slots, refl, a, (λ x h. h), (λ x h. absurd h))
  move_each_lem (node ∷ ns) m n z b b1 b2 ((p, v), ps) a =
      let j = m.jiffies in
      let (ne, le, lt) = slot_of-ne lo j node.endtime w n z b p in
      let q =
        slot_of-Placed lo' j node.endtime le (reach j node.endtime w lt) p.3 (omega arith) b2 in
      let (w', i') = slot_of j node.endtime in
      let m1 = add_timer_node node m in
      let a1 = push_back-All (Stands lo' j) w' i' node m.slots a (q, v) in
      let (s, e, a2, k, h) = move_each_lem ns m1 n z b b1 b2 ps a1 in
      (
        s,
        rw ne e,
        a2,
        (λ x y. k x (Kept-push_back w' i' node m.slots x y)),
        (λ x y. elim y [
          | inl f ↦ k x (subst (λ t. Has t m1.slots) (sym f) (Has-push_back w' i' node m.slots))
          | inr f ↦ h x f
        ]),
      )
