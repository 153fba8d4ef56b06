-- ===== src/ThreadPool/Leaving.antt =====
-- When the workers leave.
use pqnet.Common.{
  ℕ, zero, suc, ◌≡◌, refl, sym, ap, ◌∙◌, ◌⊎◌, inl, inr, Bool, true, false, Option, none, some, List,
  [], ◌∷◌, ◌++◌, append-nil, arith, get_elem?, set, replicate, ◌==◌, not, if◌then◌else◌, ap,
  append-nil,
}
use pqnet.ThreadPool.Defs.{
  Worker, idle, left, busy, Pool, Op, starts, shuts, asks, enters, turns, returns, init, run,
  shutdown, ask, add_task, enter, turn, turn_on, worker_step, step, runs,
}
use pqnet.ThreadPool.Runs.{accepted, taken_in_order}

abbrev pub has_left : List Worker → Bool
has_left [] = false
has_left (left ∷ ws) = true
has_left (idle ∷ ws) = has_left ws
has_left (busy _ ∷ ws) = has_left ws

-- Shut down, with no caller past the test of addTask.
abbrev IsShut : Pool → Type 0
IsShut p = (p.addable ≡ false) × (p.passed ≡ [])

-- A pool with workers is running or shut down; one that is shut down has no caller past the test; and
-- once a worker has left, nothing is queued.
abbrev IsSound : Pool → Type 0
IsSound p =
    ((p.workers ≡ []) ⊎ (p.running ≡ true) ⊎ IsShut p)
    × ((has_left p.workers ≡ false) ⊎ ((p.taskqueue ≡ []) × IsShut p))
    × ((p.addable ≡ true) ⊎ IsShut p)

has_left-append : (ws : List Worker) (n : ℕ) → has_left (ws ++ replicate n idle) ≡ has_left ws
has_left-append [] zero = refl
has_left-append [] (suc n) = has_left-append [] n
has_left-append (left ∷ ws) n = refl
has_left-append (idle ∷ ws) n = has_left-append ws n
has_left-append (busy _ ∷ ws) n = has_left-append ws n

-- A worker put in that has not left.
has_left-set :
    (ws : List Worker) (i : ℕ) (w : Worker)
    → has_left (w ∷ []) ≡ false
    → has_left ws ≡ false
    → has_left (set ws i w) ≡ false
has_left-set [] i w e h = refl
has_left-set (left ∷ ws) i w e h = absurd (cc)
has_left-set (idle ∷ ws) zero idle e h = h
has_left-set (idle ∷ ws) zero left e h = e
has_left-set (idle ∷ ws) zero (busy _) e h = h
has_left-set (busy _ ∷ ws) zero idle e h = h
has_left-set (busy _ ∷ ws) zero left e h = e
has_left-set (busy _ ∷ ws) zero (busy _) e h = h
has_left-set (idle ∷ ws) (suc i) w e h = has_left-set ws i w e h
has_left-set (busy _ ∷ ws) (suc i) w e h = has_left-set ws i w e h

set_nil : (ws : List Worker) (i : ℕ) (w : Worker) → ws ≡ [] → set ws i w ≡ []
set_nil [] i w e = refl
set_nil (v ∷ ws) i w e = absurd (cc)

some_worker : (ws : List Worker) (i : ℕ) → get_elem? ws i ≡ some idle → ws ≡ [] → false ≡ true
some_worker [] i e n = absurd (cc)
some_worker (v ∷ ws) i e n = absurd (cc)

-- The first part of soundness, for other workers in the same places.
set_started :
    (p : Pool) (i : ℕ) (w : Worker)
    → (p.workers ≡ []) ⊎ (p.running ≡ true) ⊎ IsShut p
    → (set p.workers i w ≡ []) ⊎ (p.running ≡ true) ⊎ IsShut p
set_started p i w (inl a) = inl (set_nil p.workers i w a)
set_started p i w (inr a) = inr a

set-IsSound :
    (p : Pool) (i : ℕ) (w : Worker)
    → has_left (w ∷ []) ≡ false
    → IsSound p
    → IsSound (record p { workers = set p.workers i w })
set-IsSound p i w e (a, inl b, c) = (set_started p i w a, inl (has_left-set p.workers i w e b), c)
set-IsSound p i w e (a, inr b, c) = (set_started p i w a, inr b, c)

leave-IsSound :
    (p : Pool) (i : ℕ)
    → [] ≡ p.taskqueue
    → get_elem? p.workers i ≡ some idle
    → p.running ≡ false
    → (p.workers ≡ []) ⊎ (p.running ≡ true) ⊎ IsShut p
    → (p.addable ≡ true) ⊎ IsShut p
    → IsSound (record p { workers = set p.workers i left })
leave-IsSound p i e g r (inl a) c = absurd (let f = some_worker p.workers i g a in cc)
leave-IsSound p i e g r (inr (inl a)) c = absurd (cc)
leave-IsSound p i e g r (inr (inr a)) c = (inr (inr a), inr (sym e, a), c)

if-same :
    (t : Bool) (p q : Pool) {b : Bool}
    → p.addable ≡ b
    → q.addable ≡ b
    → (if t then p else q).addable ≡ b
if-same true p q e f = e
if-same false p q e f = f

if-IsSound :
    (t : Bool) (p q : Pool)
    → ((t ≡ true) → IsSound p)
    → ((t ≡ false) → IsSound q)
    → IsSound (if t then p else q)
if-IsSound true p q f g = f refl
if-IsSound false p q f g = g refl

turn_on-IsSound :
    (p : Pool) (i : ℕ) (q : List ℕ)
    → q ≡ p.taskqueue
    → get_elem? p.workers i ≡ some idle
    → IsSound p
    → IsSound (turn_on i p q)
turn_on-IsSound p i [] e g (a, b, c) =
    if-IsSound p.running p _ (λ r. (a, b, c)) (λ r. leave-IsSound p i e g r a c)
turn_on-IsSound p i (task ∷ tasks) e g (a, inl b, c) =
    (set_started p i (busy task) a, inl (has_left-set p.workers i (busy task) refl b), c)
turn_on-IsSound p i (task ∷ tasks) e g (a, inr (b, s), c) = absurd (cc)

worker_step-IsSound :
    (op : Op) (i : ℕ) (w : Option Worker) (p : Pool)
    → get_elem? p.workers i ≡ w
    → IsSound p
    → IsSound (worker_step op i w p)
unfolding worker_step turn
worker_step-IsSound (turns _) i (some idle) p g s = turn_on-IsSound p i p.taskqueue refl g s
worker_step-IsSound (turns _) i (some left) p g s = s
worker_step-IsSound (turns _) i (some (busy _)) p g s = s
worker_step-IsSound (turns _) i none p g s = s
worker_step-IsSound (returns _) i (some (busy task)) p g s = set-IsSound p i idle refl s
worker_step-IsSound (returns _) i (some left) p g s = s
worker_step-IsSound (returns _) i (some idle) p g s = s
worker_step-IsSound (returns _) i none p g s = s
worker_step-IsSound starts i w p g s = s
worker_step-IsSound shuts i w p g s = s
worker_step-IsSound (asks _) i w p g s = s
worker_step-IsSound (enters _) i w p g s = s

ask-IsSound : (task : ℕ) (p : Pool) → IsSound p → IsSound (ask task p)
unfolding ask
ask-IsSound task p (a, b, inr (n, z)) =
    if-IsSound (not p.addable) p _ (λ r. (a, b, inr (n, z))) (λ r. absurd (ground (arith, n, r)))
ask-IsSound task p (a, inr (b, (n, z)), inl t) = absurd (cc)
ask-IsSound task p (inl a, inl b, inl t) =
    if-IsSound (not p.addable) p _ (λ r. (inl a, inl b, inl t)) (λ r. (inl a, inl b, inl t))
ask-IsSound task p (inr (inl a), inl b, inl t) =
    if-IsSound (not p.addable) p _ (λ r. (inr (inl a), inl b, inl t))
      (λ r. (inr (inl a), inl b, inl t))
ask-IsSound task p (inr (inr (n, z)), inl b, inl t) = absurd (cc)

enter-IsSound :
    (i : ℕ) (t : Option ℕ) (p : Pool) → get_elem? p.passed i ≡ t → IsSound p → IsSound (enter i t p)
unfolding enter add_task
enter-IsSound i none p e s = s
enter-IsSound i (some task) p e (a, b, inr (n, z)) =
    let q : get_elem? p.passed i ≡ none = rw z refl in absurd (cc)
enter-IsSound i (some task) p e (a, inr (b, (n, z)), inl t) = absurd (cc)
enter-IsSound i (some task) p e (inr (inr (n, z)), inl b, inl t) = absurd (cc)
enter-IsSound i (some task) p e (inl a, inl b, inl t) =
    if-IsSound (p.tn == 0) _ _ (λ h. (inl a, inl b, inl t)) (λ h. (inl a, inl b, inl t))
enter-IsSound i (some task) p e (inr (inl a), inl b, inl t) =
    if-IsSound (p.tn == 0) _ _ (λ h. (inr (inl a), inl b, inl t)) (λ h. (inr (inl a), inl b, inl t))

-- A shutdown comes while no caller is past the test of addTask.
abbrev pub Calm : Op → Pool → Type 0
Calm shuts p = p.passed ≡ []
Calm _ p = Unit {0}

step-IsSound : (op : Op) (p : Pool) → Calm op p → IsSound p → IsSound (step op p)
unfolding step run shutdown
step-IsSound starts p z (a, inl b, c) =
    (inr (inl refl), inl (has_left-append p.workers p.tn ∙ b), c)
step-IsSound starts p z (a, inr b, c) = (inr (inl refl), inr b, c)
step-IsSound shuts p z (a, inl b, c) = (inr (inr (refl, z)), inl b, inr (refl, z))
step-IsSound shuts p z (a, inr (b, s), c) = (inr (inr (refl, z)), inr (b, (refl, z)), inr (refl, z))
step-IsSound (asks task) p z s = ask-IsSound task p s
step-IsSound (enters i) p z s = enter-IsSound i (get_elem? p.passed i) p refl s
step-IsSound (turns i) p z s = worker_step-IsSound (turns i) i (get_elem? p.workers i) p refl s
step-IsSound (returns i) p z s = worker_step-IsSound (returns i) i (get_elem? p.workers i) p refl s

abbrev pub AllCalm : List Op → Pool → Type 0
AllCalm [] p = Unit
AllCalm (op ∷ ops) p = Calm op p × AllCalm ops (step op p)

runs-IsSound : (ops : List Op) (p : Pool) → AllCalm ops p → IsSound p → IsSound (runs ops p)
unfolding runs
runs-IsSound [] p z s = s
runs-IsSound (op ∷ ops) p (z, zs) s = runs-IsSound ops (step op p) zs (step-IsSound op p z s)

init-IsSound : (tn : ℕ) → IsSound (init tn)
unfolding init
init-IsSound tn = (inl refl, inl refl, inl refl)

-- Where every shutdown comes while no caller is past the test of addTask: once one worker of a pool
-- of `tn`, one or more, has left its loop, every task that the pool accepted has been taken by a
-- worker, in order.
pub leaving_drained :
    (tn : ℕ) (ops : List Op)
    → (tn == 0) ≡ false
    → AllCalm ops (init tn)
    → has_left (runs ops (init tn)).workers ≡ true
    → ((runs ops (init tn)).taskqueue ≡ []) × ((runs ops (init tn)).taken ≡ accepted true [] ops)
unfolding init
leaving_drained tn ops h z l =
    let p = runs ops (init tn) in
    let (a, s, c) = runs-IsSound ops (init tn) z (init-IsSound tn) in
    elim s [
      | inl b ↦ absurd (cc)
      | inr (b, c) ↦ (
        b,
        sym (append-nil p.taken) ∙ ap (λ q. p.taken ++ q) (sym b) ∙ taken_in_order ops (init tn) h,
      )
    ]
