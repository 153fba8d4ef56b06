-- ===== src/Wheels/Levels/Counting.antt =====
-- How many nodes that pass a test stand in all slots of the wheels.
use pqnet.Common.{
  ℕ, zero, suc, ◌+◌, ◌%◌, ◌^◌, ◌<◌, ◌≡◌, inl, inr, refl, Bool, true, false, ◌&&◌, List, [], ◌∷◌,
  ◌++◌, ◌==◌, ltb, Bool-cases, arith,
}
use native.Mathlib.Decide.{dec_lt}
use pqnet.Common.Words.{sub_size, uint_mod}
use pqnet.Wheels.Levels.Defs.{
  TimerNode, Wheel, tw1, tw2, tw3, tw4, tw5, same_wheel, Slots, push_back, clear, slot_in, slot_of,
  TimerManager, add_timer_node,
}
use pqnet.Wheels.Levels.Placing.{same_wheel_refl}

abbrev pub bit : Bool → ℕ
bit true = 1
bit false = 0

module _ (p : TimerNode → Bool) where
  abbrev pub count : List TimerNode → ℕ
  count [] = 0
  count (x ∷ xs) = bit (p x) + count xs

  pub count-append : (xs ys : List TimerNode) → count (xs ++ ys) ≡ count xs + count ys
  count-append [] ys = omega arith
  count-append (x ∷ xs) ys = omega (arith, count-append xs ys)

  -- Over the first slots of a wheel.
  unfoldable pub over : (ℕ → List TimerNode) → ℕ → ℕ
  over f zero = 0
  over f (suc n) = over f n + count (f n)

  over-same :
      (f g : ℕ → List TimerNode) (n : ℕ)
      → ((k : ℕ) → k < n → count (g k) ≡ count (f k))
      → over g n ≡ over f n
  unfolding over
  over-same f g zero h = refl
  over-same f g (suc n) h =
      omega (arith, over-same f g n (λ k l. h k (omega arith)), h n (omega arith))

  over-change :
      (f g : ℕ → List TimerNode) (i c n : ℕ)
      → i < n
      → ((k : ℕ) → (k ≡ i → ⊥) → count (g k) ≡ count (f k))
      → count (g i) ≡ c + count (f i)
      → over g n ≡ c + over f n
  unfolding over
  over-change f g i c zero l h e = absurd (omega arith)
  over-change f g i c (suc n) l h e = elim (dec_lt i n) [
    | yes a ↦ let q = over-change f g i c n a h e in let r = h n (λ t. omega arith) in omega arith
    | no a ↦
        let t : n ≡ i = omega arith in
        let q = over-same f g n (λ k b. h k (λ u. omega arith)) in
        let r : count (g n) ≡ c + count (f n) = rw t e in omega arith
  ]

  abbrev pub total : Slots → ℕ
  total s = over (s tw1) 256 + over (s tw2) 64 + over (s tw3) 64 + over (s tw4) 64 + over (s tw5) 64

  abbrev pub width : Wheel → ℕ
  width tw1 = 256
  width _ = 64

  -- One slot changes.
  total-change :
      (w : Wheel) (i c : ℕ) (s t : Slots)
      → i < width w
      → ((v : Wheel) (k : ℕ) → (same_wheel w v && i == k) ≡ false → count (t v k) ≡ count (s v k))
      → count (t w i) ≡ c + count (s w i)
      → total t ≡ c + total s
  total-change tw1 i c s t l h e =
      let a1 = over-change (s tw1) (t tw1) i c 256 l (λ k n. h tw1 k (ground (arith, n))) e in
      let a2 = over-same (s tw2) (t tw2) 64 (λ k n. h tw2 k refl) in
      let a3 = over-same (s tw3) (t tw3) 64 (λ k n. h tw3 k refl) in
      let a4 = over-same (s tw4) (t tw4) 64 (λ k n. h tw4 k refl) in
      let a5 = over-same (s tw5) (t tw5) 64 (λ k n. h tw5 k refl) in omega arith
  total-change tw2 i c s t l h e =
      let a1 = over-same (s tw1) (t tw1) 256 (λ k n. h tw1 k refl) in
      let a2 = over-change (s tw2) (t tw2) i c 64 l (λ k n. h tw2 k (ground (arith, n))) e in
      let a3 = over-same (s tw3) (t tw3) 64 (λ k n. h tw3 k refl) in
      let a4 = over-same (s tw4) (t tw4) 64 (λ k n. h tw4 k refl) in
      let a5 = over-same (s tw5) (t tw5) 64 (λ k n. h tw5 k refl) in omega arith
  total-change tw3 i c s t l h e =
      let a1 = over-same (s tw1) (t tw1) 256 (λ k n. h tw1 k refl) in
      let a2 = over-same (s tw2) (t tw2) 64 (λ k n. h tw2 k refl) in
      let a3 = over-change (s tw3) (t tw3) i c 64 l (λ k n. h tw3 k (ground (arith, n))) e in
      let a4 = over-same (s tw4) (t tw4) 64 (λ k n. h tw4 k refl) in
      let a5 = over-same (s tw5) (t tw5) 64 (λ k n. h tw5 k refl) in omega arith
  total-change tw4 i c s t l h e =
      let a1 = over-same (s tw1) (t tw1) 256 (λ k n. h tw1 k refl) in
      let a2 = over-same (s tw2) (t tw2) 64 (λ k n. h tw2 k refl) in
      let a3 = over-same (s tw3) (t tw3) 64 (λ k n. h tw3 k refl) in
      let a4 = over-change (s tw4) (t tw4) i c 64 l (λ k n. h tw4 k (ground (arith, n))) e in
      let a5 = over-same (s tw5) (t tw5) 64 (λ k n. h tw5 k refl) in omega arith
  total-change tw5 i c s t l h e =
      let a1 = over-same (s tw1) (t tw1) 256 (λ k n. h tw1 k refl) in
      let a2 = over-same (s tw2) (t tw2) 64 (λ k n. h tw2 k refl) in
      let a3 = over-same (s tw3) (t tw3) 64 (λ k n. h tw3 k refl) in
      let a4 = over-same (s tw4) (t tw4) 64 (λ k n. h tw4 k refl) in
      let a5 = over-change (s tw5) (t tw5) i c 64 l (λ k n. h tw5 k (ground (arith, n))) e in
      omega arith

  pub total-push_back :
      (w : Wheel) (i : ℕ) (x : TimerNode) (s : Slots)
      → i < width w
      → total (push_back w i x s) ≡ bit (p x) + total s
  unfolding push_back
  total-push_back w i x s l =
      let e : (same_wheel w w && i == i) ≡ true = rw (same_wheel_refl w) (ground arith) in
      total-change w i (bit (p x)) s (push_back w i x s) l (λ v k n. rw n refl)
        (rw e (omega (arith, count-append (s w i) (x ∷ []))))

  pub total-clear :
      (w : Wheel) (i : ℕ) (s : Slots) → i < width w → total s ≡ count (s w i) + total (clear w i s)
  unfolding clear
  total-clear w i s l =
      let e : (same_wheel w w && i == i) ≡ true = rw (same_wheel_refl w) (ground arith) in
      total-change w i (count (s w i)) (clear w i s) s l (λ v k n. rw n refl) (rw e (omega arith))

  slot_in-width : (d e : ℕ) → (slot_in d e).1 < width (slot_in d e).0
  slot_in-width d e = elim (Bool-cases (ltb d 256)) [
    | inl t ↦ rw t (omega arith)
    | inr t ↦ rw t (elim (Bool-cases (ltb d (2 ^ 14))) [
      | inl u ↦ rw u (omega arith)
      | inr u ↦ rw u (elim (Bool-cases (ltb d (2 ^ 20))) [
        | inl v ↦ rw v (omega arith)
        | inr v ↦ rw v (elim (Bool-cases (ltb d (2 ^ 26))) [
          | inl x ↦ rw x (omega arith)
          | inr x ↦ rw x (omega arith)
        ])
      ])
    ])
  ]

  pub total-add_timer_node :
      (x : TimerNode) (m : TimerManager)
      → total (add_timer_node x m).slots ≡ bit (p x) + total m.slots
  unfolding add_timer_node slot_of
  total-add_timer_node x m =
      let d = sub_size x.endtime m.jiffies % uint_mod in
      let (w, i) = slot_in d x.endtime in total-push_back w i x m.slots (slot_in-width d x.endtime)
