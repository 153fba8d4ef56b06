-- ===== src/Wheels/Levels/Ticking.antt =====
-- Which timers a turn of `handle` runs.
use pqnet.Common.{
  ℕ, suc, ◌+◌, ◌%◌, ◌^◌, ◌≤◌, ◌<◌, ◌≡◌, ◌≢◌, ◌⊎◌, Bool, inl, inr, refl, sym, true, none, some, List,
  [], ◌∷◌, ◌++◌, ◌==◌, if◌then◌else◌, Bool-cases, All, All-map, arith,
}
use mathlib.Core.Path.{subst, fun_ext}
use pqnet.Common.Words.{add_size}
use pqnet.Wheels.Levels.Defs.{
  TimerNode, is_periodic, Wheel, tw1, tw2, tw3, tw4, tw5, Slots, TimerManager, clear, cascades,
  wheels, renewed, tick,
}
use pqnet.Wheels.Levels.Placing.{Stands, AllStand, raise, clear-AllStand}
use pqnet.Wheels.Levels.Cascading.{Elem, Has, Kept, Has-clear}
use pqnet.Wheels.Levels.Chain.{from, past, Past-from, all_later, cascades_lem}
use pqnet.Wheels.Levels.Counting.{count, total, total-clear}
use pqnet.Wheels.Levels.Balance.{renewals, cascaded-Totals, serve_each-total}
use pqnet.Wheels.Levels.Serving.{beyond, serve_each-Serves}

pub record IsSound (m : TimerManager) : Type 0 where
  pub unmarked : m.rm_node ≡ none
  pub soon : m.jiffies + 2 ^ 32 < 2 ^ 63
  pub stands : AllStand (from m.jiffies) m.jiffies m.slots

abbrev pub Sorted : List TimerNode → Type 0
Sorted [] = Unit
Sorted (x ∷ xs) = All (λ y. x.endtime ≤ y.endtime) xs × Sorted xs

-- What `handle` does up to a time, the nodes being those that it runs.
pub record Runs (until : ℕ) (ns : List TimerNode) (m m' : TimerManager) : Type 0 where
  pub at : m'.jiffies ≡ until
  pub unmarked : m'.rm_node ≡ none
  pub stands : AllStand (from m'.jiffies) m'.jiffies m'.slots
  pub ran : m'.ran ≡ m.ran ++ ns
  pub due : All (λ x. (m.jiffies ≤ x.endtime) × (x.endtime < until)) ns
  pub sorted : Sorted ns
  pub run : (x : TimerNode) → Has x m.slots → x.endtime < until → Elem x ns
  pub waits : (x : TimerNode) → Has x m.slots → until ≤ x.endtime → Has x m'.slots
  pub again :
      (x : TimerNode)
      → Elem x ns
      → is_periodic x ≡ true
      → Elem (renewed x.endtime x) ns ⊎ Has (renewed x.endtime x) m'.slots
  -- By any test, the nodes that ran and those that stand after are as many as those that stood before
  -- and the renewals of the periodic ones that ran.
  pub balance :
      (p : TimerNode → Bool)
      → count p ns + total p m'.slots ≡ total p m.slots + count p (renewals ns)

pub All-Elem :
    (P : TimerNode → Type 0) (x : TimerNode) (xs : List TimerNode) → All P xs → Elem x xs → P x
All-Elem P x [] a h = absurd h
All-Elem P x (y ∷ ys) (p, a) (inl e) = subst P (sym e) p
All-Elem P x (y ∷ ys) (p, a) (inr h) = All-Elem P x ys a h

-- A node of the first wheel's slot of a time ends at that time.
due_now : (j i : ℕ) (x : TimerNode) → i ≡ j % 256 → Stands (past j) j tw1 i x → x.endtime ≡ j
due_now j i x e ((p, q, r, m), v) = omega arith

-- A node that stands past the time ends past it.
ends_later : (j i : ℕ) (w : Wheel) (x : TimerNode) → Stands (beyond j) j w i x → j < x.endtime
ends_later j i tw1 x ((p, q, r, m), v) = omega arith
ends_later j i tw2 x ((p, q, r, m), v) = omega arith
ends_later j i tw3 x ((p, q, r, m), v) = omega arith
ends_later j i tw4 x ((p, q, r, m), v) = omega arith
ends_later j i tw5 x ((p, q, r, m), v) = omega arith

-- The bounds of the first wheel's slot once it is emptied.
beyond-past : (j : ℕ) (w : Wheel) → beyond j w ≡ raise tw1 j (past j) w
beyond-past j tw1 = refl
beyond-past j tw2 = refl
beyond-past j tw3 = refl
beyond-past j tw4 = refl
beyond-past j tw5 = refl

same_end_Sorted : (j : ℕ) (ns : List TimerNode) → All (λ x. x.endtime ≡ j) ns → Sorted ns
same_end_Sorted j [] a = tt
same_end_Sorted j (x ∷ ns) (e, a) = (All-map (λ y f. omega arith) ns a, same_end_Sorted j ns a)

-- The cascades of a tick, or none.
cascaded :
    (m : TimerManager)
    → AllStand (from m.jiffies) m.jiffies m.slots
    → (s : Slots) × ((if m.jiffies % 256 == 0 then cascades wheels m else some m)
        ≡ some (record m { slots = s }))
      × AllStand (past m.jiffies) m.jiffies s
      × Kept m.slots s
cascaded m a = elim (Bool-cases (m.jiffies % 256 == 0)) [
  | inl e ↦ let (s, f, b, k) = cascades_lem m (ground (arith, e)) a in (s, rw e f, b, k)
  | inr e ↦
      let n : m.jiffies % 2 ^ 8 ≢ 0 = ground (arith, e) in
      (
        m.slots,
        rw e refl,
        all_later (from m.jiffies) (past m.jiffies) m.jiffies m.slots (Past-from m.jiffies n) a,
        (λ x h. h),
      )
]

-- The next time.
moved_on : (j : ℕ) (s : Slots) → AllStand (beyond j) j s → AllStand (from (suc j)) (suc j) s
moved_on j s a w i = All-map (λ x ((p, q, r, m), v). ((p, q, omega arith, m), v)) (s w i) (a w i)

pub tick-Runs :
    (m : TimerManager)
    → IsSound m
    → (m' : TimerManager) × (ns : List TimerNode) × (tick m ≡ some m')
      × Runs (suc m.jiffies) ns m m'
unfolding tick
tick-Runs m s =
    let j = m.jiffies in
    let i = j % 256 in
    let (s1, e, a1, k1) = cascaded m s.stands in
    let ns = s1 tw1 i in
    let m2 = record m { slots = clear tw1 i s1 } in
    let b = clear-AllStand (past j) j tw1 s1 (omega arith) a1 in
    let b' = subst (λ lo. AllStand lo j (clear tw1 i s1)) (sym (fun_ext (beyond-past j))) b in
    let (m3, f, t) =
      serve_each-Serves ns m2 s.unmarked s.soon (All-map (λ x p. p.1) ns (a1 tw1 i)) b' in
    let now = All-map (λ x. due_now j i x refl) ns (a1 tw1 i) in
    let n : add_size m3.jiffies 1 ≡ suc j = omega (arith, t.at, s.soon) in
    let c = subst (λ k. AllStand (beyond k) k m3.slots) refl t.stands in
    (
      record m3 { jiffies = add_size m3.jiffies 1 },
      ns,
      rw e (rw f refl),
      record {
        at = n;
        unmarked = t.unmarked;
        stands = subst (λ k. AllStand (from k) k m3.slots) (sym n) (moved_on j m3.slots c);
        ran = t.served;
        due = All-map (λ x p. (omega arith, omega arith)) ns now;
        sorted = same_end_Sorted j ns now;
        run = λ x h l. elim (Has-clear tw1 i s1 x (k1 x h)) [
          | inl p ↦ p
          | inr p ↦
              let (w, i', q) = p in
              let r =
                ends_later j i' w x
                  (All-Elem (Stands (beyond j) j w i') x (clear tw1 i s1 w i') (b' w i') q) in
              absurd (omega arith)
        ];
        waits = λ x h l. elim (Has-clear tw1 i s1 x (k1 x h)) [
          | inl p ↦ let q = All-Elem (λ y. y.endtime ≡ j) x ns now p in absurd (omega arith)
          | inr p ↦ t.kept x p
        ];
        again = λ x h p.
            let q = All-Elem (λ y. y.endtime ≡ j) x ns now h in
            inr (subst (λ k. Has (renewed k x) m3.slots) (sym q) (t.again x h p));
        balance = λ p.
            let c1 = cascaded-Totals p m (record m { slots = s1 }) e in
            let c2 = total-clear p tw1 i s1 (omega arith) in
            let c3 = serve_each-total p i ns m2 m3 s.unmarked now f in omega arith;
      },
    )
