-- ===== src/LockFree/Spsc/Fifo.antt =====
-- In any interleaving of the two threads the queue is first in, first out.
use pqnet.Common.{
  ℕ, ◌^◌, ◌<◌, ◌≡◌, ◌≢◌, refl, sym, ap, ◌∙◌, inl, inr, List, [], ◌∷◌, ◌++◌, append_assoc, arith,
  length, get_elem?, length-set, ◌==◌, ==_iff, Bool-cases, Option-cases,
}
use mathlib.Core.Path.{subst}
use pqnet.LockFree.Spsc.Defs.{
  Producer, resting, loaded, cleared, written, Consumer, waiting, at_head, found, got, Queue, new,
  after, push_step, pop_step, Op, push, pop, produces, consumes, begin_push, begin_pop, step, runs,
}
use pqnet.LockFree.Spsc.Window.{
  window, window-none, get-set, window-set, window-publish, window-consume,
}
use pqnet.LockFree.Spsc.Sound.{
  Pushes, Pops, IsSound, after_in, Pops-set, Pops-tail, Pushes-head, with_producer, with_consumer,
}

module _ {A : Type 0} (n : ℕ) where
  push-IsSound :
      n < 2 ^ 64
      → (q : Queue A) (p : Producer A) → q.producer ≡ p
      → IsSound n q
      → IsSound n (push_step p q)
  unfolding push_step
  push-IsSound few q resting e s = s
  push-IsSound few q (loaded x t u) e s =
      let (k, l) : Pushes n q.slots q.n_head q.n_tail (loaded x t u) =
        subst (Pushes n q.slots q.n_head q.n_tail) e s.pushes in
      elim (Bool-cases (u == q.n_head)) [
        | inl b ↦ rw b (with_producer n q resting s tt)
        | inr b ↦
            rw b (
              with_producer n q (cleared x t u) s
                (k, l, λ r. let o = (==_iff u q.n_head).1 r in cc))
      ]
  push-IsSound few q (cleared x t u) e s =
      let (k, l, m) : Pushes n q.slots q.n_head q.n_tail (cleared x t u) =
        subst (Pushes n q.slots q.n_head q.n_tail) e s.pushes in
      rw k (record {
        sized = length-set q.slots q.n_tail x ∙ s.sized;
        head_in = s.head_in;
        tail_in = s.tail_in;
        in_order =
            s.in_order ∙ ap (λ w. q.popped ++ w) (sym (window-set q.slots q.n_head q.n_tail x));
        pushes = (get-set q.slots q.n_tail x (omega (arith, s.sized, s.tail_in)), l, m);
        pops = Pops-set n q q.consumer x s.pops;
      })
  push-IsSound few q (written x t u) e s =
      let (k, l, m) : Pushes n q.slots q.n_head q.n_tail (written x t u) =
        subst (Pushes n q.slots q.n_head q.n_tail) e s.pushes in
      let a : u ≡ after (length q.slots) q.n_tail = l ∙ ap (λ i. after i q.n_tail) (sym s.sized) in
      let w =
        window-publish q.slots (omega (arith, s.sized)) q.n_head q.n_tail x
          (omega (arith, s.sized, s.head_in)) (omega (arith, s.sized, s.tail_in)) k
          (λ r. m (a ∙ r)) in
      record {
        sized = s.sized;
        head_in = s.head_in;
        tail_in = rw l (after_in n q.n_tail s.tail_in few);
        in_order =
            ap (λ r. r ++ x ∷ []) s.in_order
            ∙ append_assoc q.popped (window q.slots q.n_head q.n_tail) (x ∷ [])
            ∙ ap (λ r. q.popped ++ r) (sym w ∙ ap (window q.slots q.n_head) (sym a));
        pushes = tt;
        pops = Pops-tail n q q.consumer u m s.pops;
      }

  pop-IsSound :
      n < 2 ^ 64
      → (q : Queue A) (c : Consumer A) → q.consumer ≡ c
      → IsSound n q
      → IsSound n (pop_step n c q)
  unfolding pop_step
  pop-IsSound few q waiting e s = s
  pop-IsSound few q (at_head h) e s =
      let k : Pops n q.slots q.n_head q.n_tail (at_head h) =
        subst (Pops n q.slots q.n_head q.n_tail) e s.pops in
      elim (Bool-cases (h == q.n_tail)) [
        | inl b ↦ rw b (with_consumer n q waiting s tt)
        | inr b ↦
            rw b (with_consumer n q (found h) s (k, λ r. let o = (==_iff h q.n_tail).1 r in cc))
      ]
  pop-IsSound few q (found h) e s =
      let (k, l) : Pops n q.slots q.n_head q.n_tail (found h) =
        subst (Pops n q.slots q.n_head q.n_tail) e s.pops in
      elim (Option-cases (get_elem? q.slots h)) [
        | inl g ↦ rw g s
        | inr (y, g) ↦ rw g (with_consumer n q (got h y) s (k, l, g))
      ]
  pop-IsSound few q (got h y) e s =
      let (k, l, m) : Pops n q.slots q.n_head q.n_tail (got h y) =
        subst (Pops n q.slots q.n_head q.n_tail) e s.pops in
      let a : after n h ≡ after (length q.slots) q.n_head =
        ap (after n) k ∙ ap (λ i. after i q.n_head) (sym s.sized) in
      let d : q.n_head ≢ q.n_tail = λ r. l (k ∙ r) in
      let w =
        window-consume q.slots (omega (arith, s.sized)) q.n_head q.n_tail y
          (omega (arith, s.sized, s.head_in)) (omega (arith, s.sized, s.tail_in))
          (ap (get_elem? q.slots) (sym k) ∙ m) d in
      record {
        sized = s.sized;
        head_in = rw k (after_in n q.n_head s.head_in few);
        tail_in = s.tail_in;
        in_order =
            s.in_order
            ∙ ap (λ r. q.popped ++ r) w
            ∙ sym (
                append_assoc q.popped (y ∷ [])
                  (window q.slots (after (length q.slots) q.n_head) q.n_tail))
            ∙ ap (λ i. (q.popped ++ y ∷ []) ++ window q.slots i q.n_tail) (sym a);
        pushes =
            subst (λ i. Pushes n q.slots i q.n_tail q.producer) (ap (after n) (sym k))
              (Pushes-head n few q q.producer s.head_in s.tail_in d s.pushes);
        pops = tt;
      }

  begin_push-IsSound :
      (x : A) (q : Queue A) (p : Producer A)
      → IsSound n q
      → q.producer ≡ p
      → IsSound n (begin_push n x p q)
  begin_push-IsSound x q resting s e = with_producer n q _ s (refl, refl)
  begin_push-IsSound x q (loaded _ _ _) s e = s
  begin_push-IsSound x q (cleared _ _ _) s e = s
  begin_push-IsSound x q (written _ _ _) s e = s

  begin_pop-IsSound :
      (q : Queue A) (c : Consumer A) → IsSound n q → q.consumer ≡ c → IsSound n (begin_pop c q)
  begin_pop-IsSound q waiting s e = with_consumer n q _ s refl
  begin_pop-IsSound q (at_head _) s e = s
  begin_pop-IsSound q (found _) s e = s
  begin_pop-IsSound q (got _ _) s e = s

  step-IsSound : n < 2 ^ 64 → (op : Op A) (q : Queue A) → IsSound n q → IsSound n (step n op q)
  unfolding step
  step-IsSound few (push x) q s = begin_push-IsSound x q q.producer s refl
  step-IsSound few pop q s = begin_pop-IsSound q q.consumer s refl
  step-IsSound few produces q s = push-IsSound few q q.producer refl s
  step-IsSound few consumes q s = pop-IsSound few q q.consumer refl s

  runs-IsSound :
      n < 2 ^ 64 → (ops : List (Op A)) (q : Queue A) → IsSound n q → IsSound n (runs n ops q)
  unfolding runs
  runs-IsSound few [] q s = s
  runs-IsSound few (op ∷ ops) q s = runs-IsSound few ops (step n op q) (step-IsSound few op q s)

module _ {A : Type 0} (slots : List A) where
  new-IsSound : 0 < length slots → IsSound (length slots) (new slots)
  unfolding new
  new-IsSound h = record {
    sized = refl;
    head_in = h;
    tail_in = h;
    in_order = sym (window-none slots);
    pushes = tt;
    pops = tt;
  }

  -- The queue is first in, first out in every interleaving of the accesses of one producer and one
  -- consumer: what was pushed is, in order, what was popped and then what the slots from the head to
  -- the tail hold. The array has one element or more and fewer than 2^64.
  pub runs_fifo :
      (ops : List (Op A))
      → 0 < length slots
      → length slots < 2 ^ 64
      → let q = runs (length slots) ops (new slots) in
        q.pushed ≡ q.popped ++ window q.slots q.n_head q.n_tail
  runs_fifo ops h few = (runs-IsSound (length slots) few ops (new slots) (new-IsSound h)).in_order

  -- No two threads meet in a slot: where the producer is about to write a slot and the consumer to
  -- read one, these are two. The array has one element or more and fewer than 2^64.
  pub runs_apart :
      (ops : List (Op A)) (x : A) (t u h : ℕ)
      → 0 < length slots
      → length slots < 2 ^ 64
      → (runs (length slots) ops (new slots)).producer ≡ cleared x t u
      → (runs (length slots) ops (new slots)).consumer ≡ found h
      → t ≢ h
  runs_apart ops x t u h p few e f =
      let q = runs (length slots) ops (new slots) in
      let s = runs-IsSound (length slots) few ops (new slots) (new-IsSound p) in
      let (a, b, c) : Pushes (length slots) q.slots q.n_head q.n_tail (cleared x t u) =
        subst (Pushes (length slots) q.slots q.n_head q.n_tail) e s.pushes in
      let (i, j) : Pops (length slots) q.slots q.n_head q.n_tail (found h) =
        subst (Pops (length slots) q.slots q.n_head q.n_tail) f s.pops in
      λ r. j (sym r ∙ a)
