-- ===== src/DoubleBuffered/Refines.antt =====
-- The exchange of the two buffers cannot be seen.
use pqnet.Common.{
  ◌≡◌, refl, ap, sym, ◌∙◌, none, some, List, [], ◌∷◌, ◌++◌, append-nil, append_assoc, ◌⊎◌, inl, inr,
}
use pqnet.DoubleBuffered.Queue
use pqnet.DoubleBuffered.Defs.{
  DoubleBufferedQueue, new, push, push_all, needs_swap, swap, pop, Op, pushes, pops, outs,
  queue_outs,
}

module _ {A : Type 0} where
  -- The elements, oldest first.
  abbrev pub contents : DoubleBufferedQueue A → List A
  contents q = q.rq ++ q.wq

  Queue_push_all-append : (xs q : List A) → Queue.push_all xs q ≡ q ++ xs
  unfolding Queue.push_all Queue.push
  Queue_push_all-append [] q = sym (append-nil q)
  Queue_push_all-append (x ∷ xs) q =
      Queue_push_all-append xs (q ++ x ∷ []) ∙ append_assoc q (x ∷ []) xs

  push_all-append :
      (xs : List A) (q : DoubleBufferedQueue A) → push_all xs q ≡ record q { wq = q.wq ++ xs }
  unfolding push_all push Queue.push
  push_all-append [] q = ap (λ w. record q { wq = w }) (sym (append-nil q.wq))
  push_all-append (x ∷ xs) q =
      push_all-append xs (push x q) ∙ ap (λ w. record q { wq = w }) (append_assoc q.wq (x ∷ []) xs)

  -- A whole pop, with what is pushed while it runs, against the pop of one queue.
  abbrev Agrees : List A → List A → DoubleBufferedQueue A → Type 0
  Agrees before behind q =
      ((Queue.pop (contents q) ≡ none) × (pop before behind q ≡ none))
      ⊎ ((x : A) × (rest : List A) × (q' : DoubleBufferedQueue A) × (Queue.pop (contents q)
            ≡ some (x, rest))
          × (pop before behind q ≡ some (x, q'))
          × (contents q' ≡ (rest ++ before) ++ behind))

  pop-Agrees : (before behind r w : List A) → Agrees before behind (record { rq = r; wq = w })
  unfolding pop needs_swap swap Queue.pop Queue.empty
  pop-Agrees before behind [] [] =
      let a = push_all-append before (record { rq = []; wq = [] }) in
      let b = push_all-append behind (record { rq = []; wq = before }) in
      inl (refl, rw a (rw b refl))
  pop-Agrees before behind [] (x ∷ w) =
      let a = push_all-append before (record { rq = []; wq = x ∷ w }) in
      let b = push_all-append behind (record { rq = (x ∷ w) ++ before; wq = [] }) in
      inr (x, w, record { rq = w ++ before; wq = behind }, refl, rw a (rw b refl), refl)
  pop-Agrees before behind (x ∷ r) w =
      let a = push_all-append before (record { rq = x ∷ r; wq = w }) in
      let b = push_all-append behind (record { rq = x ∷ r; wq = w ++ before }) in
      inr (
        x,
        r ++ w,
        record { rq = r; wq = (w ++ before) ++ behind },
        refl,
        rw a (rw b refl),
        sym (append_assoc r (w ++ before) behind)
            ∙ ap (λ l. l ++ behind) (sym (append_assoc r w before)),
      )

  outs_agree :
      (ops : List (Op A)) (q : DoubleBufferedQueue A) → outs ops q ≡ queue_outs ops (contents q)
  unfolding outs queue_outs push Queue.push
  outs_agree [] q = refl
  outs_agree (pushes x ∷ ops) q =
      outs_agree ops (push x q) ∙ ap (queue_outs ops) (sym (append_assoc q.rq q.wq (x ∷ [])))
  outs_agree (pops before behind ∷ ops) q = elim (pop-Agrees before behind q.rq q.wq) [
    | inl (e, f) ↦ rw e (rw f refl)
    | inr (x, rest, q', e, f, g) ↦
        let ih = outs_agree ops q' in
        let a = Queue_push_all-append before rest in
        let b = Queue_push_all-append behind (rest ++ before) in
        rw e (rw f (rw a (rw b (rw ih (rw g refl)))))
  ]

  -- From an empty queue on, every sequence of pushes and pops, with whatever is pushed while a pop
  -- runs, hands out what one queue hands out on which each pop is one step before those pushes; and
  -- it takes the front of an empty queue where that one does, and only there.
  pub double-refines : (ops : List (Op A)) → outs ops new ≡ queue_outs ops []
  unfolding new
  double-refines ops = outs_agree ops new
