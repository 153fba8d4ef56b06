-- ===== src/LockFree/Spsc/Window.antt =====
-- The slots from the head up to the tail.
use pqnet.Common.{
  inl, inr, ◌⊎◌, ℕ, zero, suc, ◌-◌, ◌^◌, ◌≤◌, ◌<◌, ◌≡◌, ◌≢◌, refl, sym, ap, ◌∙◌, true, false, some,
  List, [], ◌∷◌, ◌++◌, append-nil, append_assoc, arith, length, take, drop, set, get_elem?, leb,
  if◌then◌else◌, drop_all, take_all, length-drop, drop-nil,
}
use native.Mathlib.Decide.{dec_le, ℕ_discrete}
use pqnet.LockFree.Spsc.Defs.{after}

module _ {A : Type 0} where
  pub window : List A → ℕ → ℕ → List A
  window q h t = if leb h t then take (t - h) (drop h q) else drop h q ++ take t q

  window_up : (q : List A) (h t : ℕ) → h ≤ t → window q h t ≡ take (t - h) (drop h q)
  unfolding window
  window_up q h t l = let e : leb h t ≡ true = ground arith in rw e refl

  window_round : (q : List A) (h t : ℕ) → t < h → window q h t ≡ drop h q ++ take t q
  unfolding window
  window_round q h t l = let e : leb h t ≡ false = ground arith in rw e refl

  pub window-none : (q : List A) → window q 0 0 ≡ []
  window-none q = window_up q 0 0 (omega arith)

  pub get-set : (q : List A) (i : ℕ) (x : A) → i < length q → get_elem? (set q i x) i ≡ some x
  get-set [] i x h = absurd (omega arith)
  get-set (y ∷ q) zero x h = refl
  get-set (y ∷ q) (suc i) x h = get-set q i x (omega arith)

  pub get-set_other :
      (q : List A) (i j : ℕ) (x : A) → i ≢ j → get_elem? (set q i x) j ≡ get_elem? q j
  get-set_other [] i j x n = refl
  get-set_other (y ∷ q) zero zero x n = absurd (n refl)
  get-set_other (y ∷ q) zero (suc j) x n = refl
  get-set_other (y ∷ q) (suc i) zero x n = refl
  get-set_other (y ∷ q) (suc i) (suc j) x n = get-set_other q i j x (λ e. n (ap suc e))

  drop-set : (q : List A) (h t : ℕ) (x : A) → t < h → drop h (set q t x) ≡ drop h q
  drop-set [] h t x l = refl
  drop-set (y ∷ q) zero t x l = absurd (omega arith)
  drop-set (y ∷ q) (suc h) zero x l = refl
  drop-set (y ∷ q) (suc h) (suc t) x l = drop-set q h t x (omega arith)

  take-set : (q : List A) (t : ℕ) (x : A) → take t (set q t x) ≡ take t q
  take-set [] t x = refl
  take-set (y ∷ q) zero x = refl
  take-set (y ∷ q) (suc t) x = ap (λ r. y ∷ r) (take-set q t x)

  take-drop-set :
      (q : List A) (h t : ℕ) (x : A)
      → h ≤ t
      → take (t - h) (drop h (set q t x)) ≡ take (t - h) (drop h q)
  take-drop-set [] h t x l = refl
  take-drop-set (y ∷ q) zero t x l = let e : t - 0 ≡ t = omega arith in rw e (take-set (y ∷ q) t x)
  take-drop-set (y ∷ q) (suc h) zero x l = absurd (omega arith)
  take-drop-set (y ∷ q) (suc h) (suc t) x l =
      let e : suc t - suc h ≡ t - h = omega arith in rw e (take-drop-set q h t x (omega arith))

  -- The slot at the tail is none of them.
  pub window-set : (q : List A) (h t : ℕ) (x : A) → window (set q t x) h t ≡ window q h t
  window-set q h t x = elim (dec_le h t) [
    | yes l ↦ window_up (set q t x) h t l ∙ take-drop-set q h t x l ∙ sym (window_up q h t l)
    | no l ↦
        let g : t < h = omega arith in
        window_round (set q t x) h t g
        ∙ ap (λ r. r ++ take t (set q t x)) (drop-set q h t x g)
        ∙ ap (λ r. drop h q ++ r) (take-set q t x)
        ∙ sym (window_round q h t g)
  ]

  take-suc :
      (q : List A) (t : ℕ) (x : A) → get_elem? q t ≡ some x → take (suc t) q ≡ take t q ++ x ∷ []
  take-suc [] t x e = absurd (cc)
  take-suc (y ∷ q) zero x e = cc
  take-suc (y ∷ q) (suc t) x e = ap (λ r. y ∷ r) (take-suc q t x e)

  get-drop : (q : List A) (h t : ℕ) → h ≤ t → get_elem? (drop h q) (t - h) ≡ get_elem? q t
  get-drop [] h t l = rw (drop-nil {A = A} h) refl
  get-drop (y ∷ q) zero t l = let e : t - 0 ≡ t = omega arith in rw e refl
  get-drop (y ∷ q) (suc h) zero l = absurd (omega arith)
  get-drop (y ∷ q) (suc h) (suc t) l =
      let e : suc t - suc h ≡ t - h = omega arith in rw e (get-drop q h t (omega arith))

  drop-get : (q : List A) (h : ℕ) (y : A) → get_elem? q h ≡ some y → drop h q ≡ y ∷ drop (suc h) q
  drop-get [] h y e = absurd (cc)
  drop-get (z ∷ q) zero y e = cc
  drop-get (z ∷ q) (suc h) y e = drop-get q h y e

-- The next index is one more, or goes back to the first.
pub after_lem :
    (n i : ℕ)
    → i < n
    → n < 2 ^ 64
    → ((suc i < n) × (after n i ≡ suc i)) ⊎ ((suc i ≡ n) × (after n i ≡ 0))
unfolding after
after_lem n i h k = ground arith

ne_lt : (h t : ℕ) → t ≤ h → (t ≢ h) → t < h
ne_lt h t l n = elim (ℕ_discrete t h) [ yes e ↦ absurd (n e) | no m ↦ omega arith ]

module _ {A : Type 0} (q : List A) (few : length q < 2 ^ 64) where
  -- With the tail moved on, the window has one element more at its end.
  pub window-publish :
      (h t : ℕ) (x : A)
      → h < length q
      → t < length q
      → get_elem? q t ≡ some x
      → after (length q) t ≢ h
      → window q h (after (length q) t) ≡ window q h t ++ x ∷ []
  window-publish h t x l m e n = elim (after_lem (length q) t m few) [
    | inl (g, a) ↦ elim (dec_le h t) [
      | yes u ↦
          let s : suc t - h ≡ suc (t - h) = omega arith in
          rw a (
            window_up q h (suc t) (omega arith)
            ∙ ap (λ i. take i (drop h q)) s
            ∙ take-suc (drop h q) (t - h) x (get-drop q h t u ∙ e)
            ∙ ap (λ r. r ++ x ∷ []) (sym (window_up q h t u)))
      | no u ↦
          let v : suc t < h = ne_lt h (suc t) (omega arith) (λ r. n (a ∙ r)) in
          rw a (
            window_round q h (suc t) v
            ∙ ap (λ r. drop h q ++ r) (take-suc q t x e)
            ∙ sym (append_assoc (drop h q) (take t q) (x ∷ []))
            ∙ ap (λ r. r ++ x ∷ []) (sym (window_round q h t (omega arith))))
    ]
    | inr (g, a) ↦
        let u : h ≤ t = omega arith in
        let v : 0 < h = ne_lt h 0 (omega arith) (λ r. n (a ∙ r)) in
        let w = length-drop h q in
        rw a (
          window_round q h 0 v
          ∙ append-nil (drop h q)
          ∙ sym (take_all (suc (t - h)) (drop h q) (omega (arith, w)))
          ∙ take-suc (drop h q) (t - h) x (get-drop q h t u ∙ e)
          ∙ ap (λ r. r ++ x ∷ []) (sym (window_up q h t u)))
  ]

  -- With the head moved on, it has lost the element at its front.
  pub window-consume :
      (h t : ℕ) (y : A)
      → h < length q
      → t < length q
      → get_elem? q h ≡ some y
      → h ≢ t
      → window q h t ≡ y ∷ window q (after (length q) h) t
  window-consume h t y l m e n =
      let d = drop-get q h y e in
      elim (after_lem (length q) h l few) [
        | inl (g, a) ↦ elim (dec_le h t) [
          | yes u ↦
              let v : suc h ≤ t = ne_lt t h u (λ r. n r) in
              let s : t - h ≡ suc (t - suc h) = omega arith in
              rw a (
                window_up q h t u
                ∙ ap (λ r. take (t - h) r) d
                ∙ ap (λ i. take i (y ∷ drop (suc h) q)) s
                ∙ ap (λ r. y ∷ r) (sym (window_up q (suc h) t v)))
          | no u ↦
              let v : t < h = omega arith in
              rw a (
                window_round q h t v
                ∙ ap (λ r. r ++ take t q) d
                ∙ ap (λ r. y ∷ r) (sym (window_round q (suc h) t (omega arith))))
        ]
        | inr (g, a) ↦
            let v : t < h = ne_lt h t (omega arith) (λ r. n (sym r)) in
            let z : t - 0 ≡ t = omega arith in
            rw a (
              window_round q h t v
              ∙ ap (λ r. r ++ take t q) (d ∙ ap (λ r. y ∷ r) (drop_all (suc h) q (omega arith)))
              ∙ ap (λ r. y ∷ r) (sym (window_up q 0 t (omega arith) ∙ ap (λ i. take i q) z)))
      ]
