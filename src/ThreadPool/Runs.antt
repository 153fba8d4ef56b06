-- ===== src/ThreadPool/Runs.antt =====
-- What holds over every interleaving of callers and workers.
use pqnet.Common.{
  ℕ, ◌≡◌, refl, ap, sym, ◌∙◌, inl, inr, Bool, false, Option, none, some, List, [], ◌∷◌, ◌++◌,
  append-nil, append_assoc, get_elem?, ◌==◌, Bool-cases, if◌then◌else◌,
}
use mathlib.Core.Path.{ap₂}
use pqnet.ThreadPool.Defs.{
  Worker, idle, left, busy, Pool, Op, starts, shuts, asks, enters, turns, returns, run, shutdown,
  ask, add_task, remove, enter, turn, turn_on, worker_step, step, runs,
}

-- The tasks that callers put into the queue, in the order in which they come to its mutex: each was
-- asked for before the first shutdown. The list is that of the callers past the test.
abbrev pub accepted : Bool → List ℕ → List Op → List ℕ
accepted b ps [] = []
accepted b ps (asks task ∷ ops) = accepted b (if b then ps ++ task ∷ [] else ps) ops
accepted b ps (enters i ∷ ops) = elim (get_elem? ps i) [
  | none ↦ accepted b ps ops
  | some task ↦ task ∷ accepted b (remove i ps) ops
]
accepted b ps (shuts ∷ ops) = accepted false ps ops
accepted b ps (starts ∷ ops) = accepted b ps ops
accepted b ps (turns i ∷ ops) = accepted b ps ops
accepted b ps (returns i ∷ ops) = accepted b ps ops

-- All tasks that the queue has held, oldest first.
abbrev pub queued : Pool → List ℕ
queued p = p.taken ++ p.taskqueue

-- What a worker's step leaves alone.
abbrev pub Quiet : Pool → Pool → Type 0
Quiet p p' =
    (queued p' ≡ queued p) × (p'.addable ≡ p.addable) × (p'.tn ≡ p.tn) × (p'.passed ≡ p.passed)

turn_on-Quiet : (i : ℕ) (p : Pool) (q : List ℕ) → q ≡ p.taskqueue → Quiet p (turn_on i p q)
turn_on-Quiet i p [] e = elim (Bool-cases p.running) [
  | inl b ↦ rw b ((refl, refl, refl, refl))
  | inr b ↦ rw b ((refl, refl, refl, refl))
]
turn_on-Quiet i p (task ∷ tasks) e =
    (append_assoc p.taken (task ∷ []) tasks ∙ ap (λ q. p.taken ++ q) e, refl, refl, refl)

pub worker_step-Quiet :
    (op : Op) (i : ℕ) (w : Option Worker) (p : Pool) → Quiet p (worker_step op i w p)
unfolding worker_step turn
worker_step-Quiet (turns _) i (some idle) p = turn_on-Quiet i p p.taskqueue refl
worker_step-Quiet (turns _) i (some left) p = (refl, refl, refl, refl)
worker_step-Quiet (turns _) i (some (busy _)) p = (refl, refl, refl, refl)
worker_step-Quiet (turns _) i none p = (refl, refl, refl, refl)
worker_step-Quiet (returns _) i (some (busy task)) p = (refl, refl, refl, refl)
worker_step-Quiet (returns _) i (some left) p = (refl, refl, refl, refl)
worker_step-Quiet (returns _) i (some idle) p = (refl, refl, refl, refl)
worker_step-Quiet (returns _) i none p = (refl, refl, refl, refl)
worker_step-Quiet starts i w p = (refl, refl, refl, refl)
worker_step-Quiet shuts i w p = (refl, refl, refl, refl)
worker_step-Quiet (asks _) i w p = (refl, refl, refl, refl)
worker_step-Quiet (enters _) i w p = (refl, refl, refl, refl)

append_snoc :
    (p : Pool) (task : ℕ) (later : List ℕ)
    → (p.taken ++ (p.taskqueue ++ task ∷ [])) ++ later ≡ queued p ++ task ∷ later
append_snoc p task later =
    ap (λ q. q ++ later) (sym (append_assoc p.taken p.taskqueue (task ∷ [])))
    ∙ append_assoc (queued p) (task ∷ []) later

accepted_same :
    (ops : List Op) {a b : Bool} {ps qs : List ℕ}
    → a ≡ b
    → ps ≡ qs
    → accepted a ps ops ≡ accepted b qs ops
accepted_same ops e f = ap₂ (λ x y. accepted x y ops) e f

-- The queued tasks after one step, and those accepted after it.
entered :
    (i : ℕ) (t : Option ℕ) (ops : List Op) (p : Pool)
    → get_elem? p.passed i ≡ t
    → (p.tn == 0) ≡ false
    → (((enter i t p).tn == 0) ≡ false)
      × (queued (enter i t p) ++ accepted ((enter i t p).addable) ((enter i t p).passed) ops
          ≡ queued p ++ accepted p.addable p.passed (enters i ∷ ops))
unfolding enter add_task
entered i none ops p e h = (h, rw (e, accepted) refl)
entered i (some task) ops p e h = (
  rw h h,
  rw (e, accepted) (rw h (append_snoc p task (accepted p.addable (remove i p.passed) ops))),
)

accepts :
    (op : Op) (ops : List Op) (p : Pool)
    → (p.tn == 0) ≡ false
    → (((step op p).tn == 0) ≡ false)
      × (queued (step op p) ++ accepted ((step op p).addable) ((step op p).passed) ops
          ≡ queued p ++ accepted p.addable p.passed (op ∷ ops))
unfolding step run shutdown ask
accepts starts ops p h = (h, refl)
accepts shuts ops p h = (h, refl)
accepts (asks task) ops p h = elim (Bool-cases p.addable) [
  | inl b ↦ (rw b h, rw b refl)
  | inr b ↦ (rw b h, rw b refl)
]
accepts (enters i) ops p h = entered i (get_elem? p.passed i) ops p refl h
accepts (turns i) ops p h =
    let (a, b, c, d) = worker_step-Quiet (turns i) i (get_elem? p.workers i) p in
    (rw c h, ap₂ ◌++◌ a (accepted_same ops b d))
accepts (returns i) ops p h =
    let (a, b, c, d) = worker_step-Quiet (returns i) i (get_elem? p.workers i) p in
    (rw c h, ap₂ ◌++◌ a (accepted_same ops b d))

-- With one worker or more, the tasks taken and those still queued are, in order, those that were
-- there and then those accepted, in the order in which their callers came to the mutex: no task is
-- lost, doubled or overtaken, in any order of steps, the test of addTask being one of its own.
pub taken_in_order :
    (ops : List Op) (p : Pool)
    → (p.tn == 0) ≡ false
    → (runs ops p).taken ++ (runs ops p).taskqueue
      ≡ (p.taken ++ p.taskqueue) ++ accepted p.addable p.passed ops
unfolding runs
taken_in_order [] p h = sym (append-nil _)
taken_in_order (op ∷ ops) p h =
    let (a, b) = accepts op ops p h in taken_in_order ops (step op p) a ∙ b
