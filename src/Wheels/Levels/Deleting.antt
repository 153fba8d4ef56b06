-- ===== src/Wheels/Levels/Deleting.antt =====
-- `delTimer`, and the id that it compares with.
use pqnet.Common.{
  ◌↔◌, sym, ap, ==_iff, ℕ, ◌≡◌, ◌≢◌, ◌⊎◌, inl, inr, refl, ◌∙◌, Bool, true, false, none, some, List,
  [], ◌∷◌, ◌++◌, ◌==◌, ◌%◌, All, Bool-cases, arith,
}
use pqnet.Wheels.Levels.Defs.{
  Wheel, TimerNode, TimerManager, without, dropped, delete_node, erase_each, del_timer,
}

-- An element of a list.
abbrev pub In : {A : Type 0} → A → List A → Type 0
In x [] = ⊥
In x (y ∷ ys) = (x ≡ y) ⊎ In x ys

-- The timer of the address leaves every slot and every bucket, and is marked; the others stay.
pub record TakesOut (tid : ℕ) (m m' : TimerManager) : Type 0 where
  pub marked : m'.rm_node ≡ some tid
  pub at : m'.jiffies ≡ m.jiffies
  pub ran : m'.ran ≡ m.ran
  pub slot :
      (w : Wheel) (i : ℕ) (x : TimerNode)
      → In x (m'.slots w i) ↔ (In x (m.slots w i) × (x.address ≢ tid))
  pub bucket : (b : ℕ) (e : ℕ × ℕ) → In e (m'.htable b) ↔ (In e (m.htable b) × (e.0 ≢ tid))

dropped_lem :
    (a : ℕ) (x : TimerNode) (xs : List TimerNode)
    → In x (dropped a xs) ↔ (In x xs × (x.address ≢ a))
dropped_lem a x [] = ((λ h. absurd h), (λ (h, n). absurd h))
dropped_lem a x (y ∷ ys) =
    let (to, from) = dropped_lem a x ys in
    elim (Bool-cases (y.address == a)) [
      | inl e ↦ rw e (
        (λ h. let (k, n) = to h in (inr k, n)),
        (λ (h, n). elim h [
          | inl g ↦ absurd (n (ap (λ z. z.address) g ∙ (==_iff y.address a).0 e))
          | inr k ↦ from (k, n)
        ]),
      )
      | inr e ↦ rw e (
        (λ h. elim h [
          | inl g ↦ (
            inl g,
            λ q.
                let r : y.address ≡ a = ap (λ z. z.address) (sym g) ∙ q in
                absurd (ground (arith, e, r)),
          )
          | inr k ↦ let (k', n) = to k in (inr k', n)
        ]),
        (λ (h, n). elim h [ inl g ↦ inl g | inr k ↦ inr (from (k, n)) ]),
      )
    ]

without_lem : (a : ℕ) (x : ℕ × ℕ) (xs : List (ℕ × ℕ)) → In x (without a xs) ↔ (In x xs × (x.0 ≢ a))
without_lem a x [] = ((λ h. absurd h), (λ (h, n). absurd h))
without_lem a x ((b, s) ∷ ys) =
    let (to, from) = without_lem a x ys in
    elim (Bool-cases (b == a)) [
      | inl e ↦ rw e (
        (λ h. let (k, n) = to h in (inr k, n)),
        (λ (h, n). elim h [
          | inl g ↦ absurd (n (ap (λ z. z.0) g ∙ (==_iff b a).0 e))
          | inr k ↦ from (k, n)
        ]),
      )
      | inr e ↦ rw e (
        (λ h. elim h [
          | inl g ↦ (
            inl g,
            λ q. let r : b ≡ a = ap (λ z. z.0) (sym g) ∙ q in absurd (ground (arith, e, r)),
          )
          | inr k ↦ let (k', n) = to k in (inr k', n)
        ]),
        (λ (h, n). elim h [ inl g ↦ inl g | inr k ↦ inr (from (k, n)) ]),
      )
    ]

delete_node-TakesOut :
    (tid : ℕ) (m : TimerManager)
    → TakesOut tid m (delete_node tid (record m { rm_node = some tid }))
unfolding delete_node
delete_node-TakesOut tid m = record {
  marked = refl;
  at = refl;
  ran = refl;
  slot = λ w i x. dropped_lem tid x (m.slots w i);
  bucket = λ b e. without_lem tid e (m.htable b);
}

module _ (hash : ℕ → ℕ) (sid : ℕ) where
  -- Some entry's id has the hash.
  abbrev pub Meets : List (ℕ × ℕ) → Type 0
  Meets [] = ⊥
  Meets ((a, s) ∷ es) = (hash s ≡ hash sid) ⊎ Meets es

  abbrev pub Misses : List (ℕ × ℕ) → Type 0
  Misses es = All (λ e. hash e.1 ≢ hash sid) es

  erase_each-Misses :
      (rm : ℕ) (freed : Bool) (xs es : List (ℕ × ℕ)) (m : TimerManager)
      → Misses xs
      → erase_each hash rm sid freed (xs ++ es) m ≡ erase_each hash rm sid freed es m
  unfolding erase_each
  erase_each-Misses rm freed [] es m h = refl
  erase_each-Misses rm freed ((a, s) ∷ xs) es m (n, h) =
      let e : (hash s == hash sid) ≡ false = ground (arith, n) in
      rw e (erase_each-Misses rm freed xs es m h)

  erase_each_freed :
      (rm : ℕ) (es : List (ℕ × ℕ)) (m : TimerManager)
      → Meets es
      → erase_each hash rm sid true es m ≡ none
  unfolding erase_each
  erase_each_freed rm [] m h = absurd h
  erase_each_freed rm ((a, s) ∷ es) m h = elim (Bool-cases (hash s == hash sid)) [
    | inl e ↦ rw e refl
    | inr e ↦ elim h [
      | inl g ↦ absurd (ground (arith, e, g))
      | inr k ↦ rw e (erase_each_freed rm es m k)
    ]
  ]

  -- The timer's own entry.
  first :
      (tid : ℕ) (es : List (ℕ × ℕ)) (m : TimerManager)
      → erase_each hash tid sid false ((tid, sid) ∷ es) m
        ≡ erase_each hash tid sid true es (delete_node tid m)
  unfolding erase_each
  first tid es m =
      let a : (hash sid == hash sid) ≡ true = ground arith in
      let b : (sid == sid) ≡ true = ground arith in
      let c : (tid == tid) ≡ true = ground arith in rw a (rw b (rw c refl))

  rest :
      (tid : ℕ) (es : List (ℕ × ℕ)) (m : TimerManager)
      → Misses es
      → erase_each hash tid sid true es m ≡ some m
  unfolding erase_each
  rest tid [] m h = refl
  rest tid ((a, s) ∷ es) m (n, h) =
      let e : (hash s == hash sid) ≡ false = ground (arith, n) in rw e (rest tid es m h)

  Meets-cases : (es : List (ℕ × ℕ)) → Misses es ⊎ Meets es
  Meets-cases [] = inl tt
  Meets-cases ((a, s) ∷ es) = elim (Bool-cases (hash s == hash sid)) [
    | inl e ↦ inr (inl (ground (arith, e)))
    | inr e ↦ elim (Meets-cases es) [
      | inl h ↦ inl ((λ g. absurd (ground (arith, e, g))), h)
      | inr h ↦ inr (inr h)
    ]
  ]

  -- With the timer in its bucket, and no id of the same hash before it: either none comes after it,
  -- and delTimer returns with just that timer out of every slot and every bucket, and marked, or one comes after it, a timer of the
  -- same id among them, and delTimer compares with the id of the node that it has deleted.
  pub deletes_or_compares :
      (tid : ℕ) (xs es : List (ℕ × ℕ)) (m : TimerManager)
      → m.htable (hash sid % 256) ≡ xs ++ (tid, sid) ∷ es
      → Misses xs
      → (Misses es × (m' : TimerManager) × (del_timer hash tid sid m ≡ some m') × TakesOut tid m m')
        ⊎ (Meets es × (del_timer hash tid sid m ≡ none))
  unfolding del_timer
  deletes_or_compares tid xs es m b h =
      let m0 = record m { rm_node = some tid } in
      let d : del_timer hash tid sid m ≡ erase_each hash tid sid true es (delete_node tid m0) =
        rw b (erase_each-Misses tid false xs ((tid, sid) ∷ es) m0 h ∙ first tid es m0) in
      elim (Meets-cases es) [
        | inl n ↦ inl (
          n,
          delete_node tid m0,
          d ∙ rest tid es (delete_node tid m0) n,
          delete_node-TakesOut tid m,
        )
        | inr n ↦ inr (n, d ∙ erase_each_freed tid es (delete_node tid m0) n)
      ]
