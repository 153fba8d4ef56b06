-- ===== src/Wheels/Levels/Serving.antt =====
-- The walk of `handle` over the nodes of a slot of the first wheel.
use pqnet.Common.{
  ℕ, suc, ◌+◌, ◌%◌, ◌^◌, ◌<◌, ◌≡◌, inl, inr, refl, sym, ap, ◌∙◌, true, false, ◌&&◌, none, some,
  List, [], ◌∷◌, ◌++◌, append-nil, append_assoc, ◌==◌, Bool-cases, All, arith,
}
use mathlib.Core.Path.{subst}
use pqnet.Common.Words.{add_size, mul_uint}
use pqnet.Wheels.Levels.Defs.{
  TimerNode, is_periodic, Wheel, tw1, same_wheel, TimerManager, push_back, slot_of, add_timer_node,
  is_marked, renewed, serve, serve_each,
}
use pqnet.Wheels.Levels.Placing.{Waits, Stands, AllStand, slot_of-Placed, push_back-All}
use pqnet.Wheels.Levels.Cascading.{Elem, Has, Kept, Kept-push_back, Has-push_back}

-- The bound past the first wheel too.
abbrev pub beyond : ℕ → Wheel → ℕ
beyond j w = suc j

-- A node that is renewed does not come to stand in the slot that is walked.
renewed_elsewhere :
    (j interval : ℕ)
    → j + 2 ^ 32 < 2 ^ 63
    → 0 < mul_uint interval 1000
    → (same_wheel tw1 (slot_of j (add_size j (mul_uint interval 1000))).0
        && j % 256 == (slot_of j (add_size j (mul_uint interval 1000))).1)
      ≡ false
unfolding slot_of
renewed_elsewhere j interval b p = ground arith

-- What a walk over nodes that are due does.
pub record Serves (ns : List TimerNode) (m m' : TimerManager) : Type 0 where
  pub at : m'.jiffies ≡ m.jiffies
  pub unmarked : m'.rm_node ≡ none
  pub served : m'.ran ≡ m.ran ++ ns
  pub stands : AllStand (beyond m.jiffies) m.jiffies m'.slots
  pub kept : Kept m.slots m'.slots
  pub again :
      (x : TimerNode) → Elem x ns → is_periodic x ≡ true → Has (renewed m.jiffies x) m'.slots

Serves-none :
    (m : TimerManager)
    → m.rm_node ≡ none
    → AllStand (beyond m.jiffies) m.jiffies m.slots
    → Serves [] m m
Serves-none m e a = record {
  at = refl;
  unmarked = e;
  served = sym (append-nil m.ran);
  stands = a;
  kept = λ x h. h;
  again = λ x h p. absurd h;
}

Serves-cons :
    (x : TimerNode) (ns : List TimerNode) (m m1 m2 : TimerManager)
    → Serves (x ∷ []) m m1
    → Serves ns m1 m2
    → Serves (x ∷ ns) m m2
Serves-cons x ns m m1 m2 s t = record {
  at = t.at ∙ s.at;
  unmarked = t.unmarked;
  served = t.served ∙ ap (λ l. l ++ ns) s.served ∙ append_assoc m.ran (x ∷ []) ns;
  stands = subst (λ j. AllStand (beyond j) j m2.slots) s.at t.stands;
  kept = λ y h. t.kept y (s.kept y h);
  again = λ y h p. elim h [
    | inl e ↦ t.kept (renewed m.jiffies y) (s.again y (inl e) p)
    | inr e ↦ subst (λ j. Has (renewed j y) m2.slots) s.at (t.again y e p)
  ];
}

-- Once more at the time of its last run and its interval.
renewed-Stands :
    (j : ℕ) (node : TimerNode)
    → j + 2 ^ 32 < 2 ^ 63
    → 0 < mul_uint node.interval 1000
    → let (w, i) = slot_of j (renewed j node).endtime in Stands (beyond j) j w i (renewed j node)
renewed-Stands j node b p = (
  slot_of-Placed (beyond j) j (renewed j node).endtime (omega arith) (omega arith) (omega arith)
      (omega arith) (λ w. omega arith),
  inr p,
)

Waits-periodic :
    (node : TimerNode)
    → Waits node.interval
    → is_periodic node ≡ true
    → 0 < mul_uint node.interval 1000
unfolding is_periodic
Waits-periodic node (inl e) p = ground (arith, e, p)
Waits-periodic node (inr h) p = h

serve-Serves :
    (i : ℕ) (node : TimerNode) (m : TimerManager)
    → m.rm_node ≡ none
    → m.jiffies + 2 ^ 32 < 2 ^ 63
    → Waits node.interval
    → AllStand (beyond m.jiffies) m.jiffies m.slots
    → Serves (node ∷ []) m (serve i node m)
unfolding serve add_timer_node
serve-Serves i node m e b v a =
    let f : is_marked m.rm_node node.address ≡ false = ap (λ r. is_marked r node.address) e in
    elim (Bool-cases (is_periodic node)) [
      | inl p ↦
          let node' = renewed m.jiffies node in
          let (w, k) = slot_of m.jiffies node'.endtime in
          let q = renewed-Stands m.jiffies node b (Waits-periodic node v p) in
          rw f (
            rw p (record {
              at = refl;
              unmarked = e;
              served = refl;
              stands = push_back-All (Stands (beyond m.jiffies) m.jiffies) w k node' m.slots a q;
              kept = Kept-push_back w k node' m.slots;
              again = λ x h r. elim h [
                | inl g ↦
                    subst (λ y. Has (renewed m.jiffies y) (push_back w k node' m.slots)) (sym g)
                      (Has-push_back w k node' m.slots)
                | inr n ↦ absurd n
              ];
            }))
      | inr p ↦ rw f (
          rw p (record {
            at = refl;
            unmarked = e;
            served = refl;
            stands = a;
            kept = λ x h. h;
            again = λ x h r. elim h [
              | inl g ↦ let n : is_periodic node ≡ true = ap is_periodic (sym g) ∙ r in absurd (cc)
              | inr n ↦ absurd n
            ];
          }))
    ]

pub serve_each-Serves :
    (ns : List TimerNode) (m : TimerManager)
    → m.rm_node ≡ none
    → m.jiffies + 2 ^ 32 < 2 ^ 63
    → All (λ x. Waits x.interval) ns
    → AllStand (beyond m.jiffies) m.jiffies m.slots
    → (m' : TimerManager) × (serve_each (m.jiffies % 256) ns m ≡ some m') × Serves ns m m'
unfolding serve_each
serve_each-Serves [] m e b v a = (m, refl, Serves-none m e a)
serve_each-Serves (node ∷ ns) m e b (v, vs) a =
    let i = m.jiffies % 256 in
    let m1 = serve i node m in
    let s = serve-Serves i node m e b v a in
    let b1 : m1.jiffies + 2 ^ 32 < 2 ^ 63 = omega (arith, s.at) in
    let a1 = subst (λ j. AllStand (beyond j) j m1.slots) (sym s.at) s.stands in
    let (m2, f, t) = serve_each-Serves ns m1 s.unmarked b1 vs a1 in
    let f' : serve_each i ns m1 ≡ some m2 = ap (λ j. serve_each (j % 256) ns m1) (sym s.at) ∙ f in
    let g : serve_each i (node ∷ ns) m ≡ some m2 = elim (Bool-cases (is_periodic node)) [
      | inl p ↦ rw (renewed_elsewhere m.jiffies node.interval b (Waits-periodic node v p)) (rw p f')
      | inr p ↦ rw p f'
    ] in
    (m2, g, Serves-cons node ns m m1 m2 s t)
