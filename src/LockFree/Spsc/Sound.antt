-- ===== src/LockFree/Spsc/Sound.antt =====
-- What holds of the queue between any two steps, and what each thread knows of it.
use pqnet.Common.{
  ℕ, ◌^◌, ◌<◌, ◌≡◌, ◌≢◌, sym, ◌∙◌, inl, inr, some, List, ◌++◌, arith, length, set, get_elem?,
}
use pqnet.LockFree.Spsc.Defs.{
  Producer, resting, loaded, cleared, written, Consumer, waiting, at_head, found, got, Queue, after,
}
use pqnet.LockFree.Spsc.Window.{window, get-set_other, after_lem}

pub after_in : (n i : ℕ) → i < n → n < 2 ^ 64 → after n i < n
after_in n i h k = elim (after_lem n i h k) [
  | inl (a, e) ↦ rw e a
  | inr (a, e) ↦ rw e (omega arith)
]

pub after_one : (n i j : ℕ) → i < n → j < n → n < 2 ^ 64 → after n i ≡ after n j → i ≡ j
after_one n i j h k l e = elim (after_lem n i h l) [
  | inl (a, p) ↦ elim (after_lem n j k l) [
    | inl (b, r) ↦ omega arith
    | inr (b, r) ↦ absurd (omega arith)
  ]
  | inr (a, p) ↦ elim (after_lem n j k l) [
    | inl (b, r) ↦ absurd (omega arith)
    | inr (b, r) ↦ omega arith
  ]
]

module _ {A : Type 0} (n : ℕ) where
  -- What a call of `push` knows of the queue, and what one of `pop` knows.
  abbrev pub Pushes : List A → ℕ → ℕ → Producer A → Type 0
  Pushes slots head tail resting = Unit
  Pushes slots head tail (loaded x t u) = (t ≡ tail) × (u ≡ after n tail)
  Pushes slots head tail (cleared x t u) = (t ≡ tail) × (u ≡ after n tail) × (u ≢ head)
  Pushes slots head tail (written x t u) =
      (get_elem? slots tail ≡ some x) × (u ≡ after n tail) × (u ≢ head)

  abbrev pub Pops : List A → ℕ → ℕ → Consumer A → Type 0
  Pops slots head tail waiting = Unit
  Pops slots head tail (at_head h) = h ≡ head
  Pops slots head tail (found h) = (h ≡ head) × (h ≢ tail)
  Pops slots head tail (got h y) = (h ≡ head) × (h ≢ tail) × (get_elem? slots h ≡ some y)

  pub record IsSound (q : Queue A) : Type 0 where
    pub sized : length q.slots ≡ n
    pub head_in : q.n_head < n
    pub tail_in : q.n_tail < n
    pub in_order : q.pushed ≡ q.popped ++ window q.slots q.n_head q.n_tail
    pub pushes : Pushes q.slots q.n_head q.n_tail q.producer
    pub pops : Pops q.slots q.n_head q.n_tail q.consumer

  pub with_producer :
      (q : Queue A) (p : Producer A)
      → IsSound q
      → Pushes q.slots q.n_head q.n_tail p
      → IsSound (record q { producer = p })
  with_producer q p s k = record {
    sized = s.sized;
    head_in = s.head_in;
    tail_in = s.tail_in;
    in_order = s.in_order;
    pushes = k;
    pops = s.pops;
  }

  pub with_consumer :
      (q : Queue A) (c : Consumer A)
      → IsSound q
      → Pops q.slots q.n_head q.n_tail c
      → IsSound (record q { consumer = c })
  with_consumer q c s k = record {
    sized = s.sized;
    head_in = s.head_in;
    tail_in = s.tail_in;
    in_order = s.in_order;
    pushes = s.pushes;
    pops = k;
  }

  -- What `pop` knows stays true when `push` writes its slot, and when it moves the tail.
  pub Pops-set :
      (q : Queue A) (c : Consumer A) (x : A)
      → Pops q.slots q.n_head q.n_tail c
      → Pops (set q.slots q.n_tail x) q.n_head q.n_tail c
  Pops-set q waiting x k = tt
  Pops-set q (at_head h) x k = k
  Pops-set q (found h) x k = k
  Pops-set q (got h y) x (k, l, m) = (k, l, get-set_other q.slots q.n_tail h x (λ e. l (sym e)) ∙ m)

  pub Pops-tail :
      (q : Queue A) (c : Consumer A) (u : ℕ)
      → u ≢ q.n_head
      → Pops q.slots q.n_head q.n_tail c
      → Pops q.slots q.n_head u c
  Pops-tail q waiting u n k = tt
  Pops-tail q (at_head h) u n k = k
  Pops-tail q (found h) u n (k, l) = (k, λ e. n (sym e ∙ k))
  Pops-tail q (got h y) u n (k, l, m) = (k, (λ e. n (sym e ∙ k)), m)

  -- What `push` knows stays true when `pop` moves the head.
  pub Pushes-head :
      n < 2 ^ 64
      → (q : Queue A) (p : Producer A) → q.n_head < n
      → q.n_tail < n
      → q.n_head ≢ q.n_tail
      → Pushes q.slots q.n_head q.n_tail p
      → Pushes q.slots (after n q.n_head) q.n_tail p
  Pushes-head few q resting h t d k = tt
  Pushes-head few q (loaded x i u) h t d k = k
  Pushes-head few q (cleared x i u) h t d (k, l, m) =
      (k, l, λ e. d (sym (after_one n q.n_tail q.n_head t h few (sym l ∙ e))))
  Pushes-head few q (written x i u) h t d (k, l, m) =
      (k, l, λ e. d (sym (after_one n q.n_tail q.n_head t h few (sym l ∙ e))))
