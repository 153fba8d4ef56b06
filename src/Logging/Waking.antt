-- ===== src/Logging/Waking.antt =====
-- The queue of AsyncLog, under every interleaving of its callers, its thread and its destructor.
use pqnet.Common.{
  ℕ, zero, suc, ◌≡◌, refl, ap, sym, ◌∙◌, Bool, true, false, List, [], ◌∷◌, ◌++◌, append-nil,
  append_assoc, replicate, ltb, if◌then◌else◌, Bool-cases, inl, inr,
}
use pqnet.Kernel.{Level, info}
use pqnet.Logging.Files.{ok, Target, console, Stream, Act, Files}
use pqnet.Logging.Logger.{rank}
use pqnet.Logging.AsyncLog.{
  Taker, testing, drowsy, asleep, left, printing, AsyncLog, new, consume, woken, is_free, add_log,
  test, turn, Op, adds, turns, stops, notifies, step, runs,
}
use pqnet.Logging.Printing.{sink_at, lines, with_line, consume_lem}

-- The line that was taken and is still to be printed.
abbrev pub in_hand : Taker → List (Level × ℕ)
in_hand (printing l msg) = (l, msg) ∷ []
in_hand _ = []

-- The lines at or above a level.
abbrev pub kept : Level → List (Level × ℕ) → List (Level × ℕ)
kept lv [] = []
kept lv ((l, msg) ∷ logs) =
    let rest = kept lv logs in if ltb (rank l) (rank lv) then rest else (l, msg) ∷ rest

-- What was printed, oldest first, whatever the streams.
abbrev pub texts : List (Level × ℕ × Stream) → List (Level × ℕ)
texts [] = []
texts ((l, msg, s) ∷ ls) = texts ls ++ (l, msg) ∷ []

kept-append :
    (lv : Level) (xs ys : List (Level × ℕ)) → kept lv (xs ++ ys) ≡ kept lv xs ++ kept lv ys
kept-append lv [] ys = refl
kept-append lv ((l, msg) ∷ xs) ys = elim (Bool-cases (ltb (rank l) (rank lv))) [
  | inl b ↦ rw b (kept-append lv xs ys)
  | inr b ↦ rw b (ap (◌∷◌ (l, msg)) (kept-append lv xs ys))
]

-- The lines are taken in the order in which they were queued, and printed in that order.
pub record Keeps (lv : Level) (t : Target) (a : AsyncLog) : Type 0 where
  pub date : ℕ
  pub trail : List Act
  pub finished : List (Level × ℕ)
  pub at : a.sink ≡ sink_at lv t date trail
  pub queued : a.added ≡ a.taken ++ a.logqueue
  pub handed : a.taken ≡ finished ++ in_hand a.taker
  pub printed : texts (lines trail) ≡ kept lv finished

in_hand-woken : (t : Taker) → in_hand (woken t) ≡ in_hand t
in_hand-woken asleep = refl
in_hand-woken testing = refl
in_hand-woken drowsy = refl
in_hand-woken left = refl
in_hand-woken (printing l msg) = refl

in_hand-rests : (running : Bool) → in_hand (if running then drowsy else left) ≡ []
in_hand-rests true = refl
in_hand-rests false = refl

module _ (lv : Level) (t : Target) where
  wake-Keeps : (a : AsyncLog) → Keeps lv t a → Keeps lv t (record a { taker = woken a.taker })
  wake-Keeps a k = record {
    date = k.date;
    trail = k.trail;
    finished = k.finished;
    at = k.at;
    queued = k.queued;
    handed = k.handed ∙ ap (◌++◌ k.finished) (sym (in_hand-woken a.taker));
    printed = k.printed;
  }

  choose-Keeps :
      (c : Bool) (a b : AsyncLog) → Keeps lv t a → Keeps lv t b → Keeps lv t (if c then a else b)
  choose-Keeps true a b k h = k
  choose-Keeps false a b k h = h

  add_log-Keeps : (l : Level) (msg : ℕ) (a : AsyncLog) → Keeps lv t a → Keeps lv t (add_log l msg a)
  unfolding add_log
  add_log-Keeps l msg a k =
      let x = (l, msg) ∷ [] in
      let b = record a {
        logqueue = a.logqueue ++ x;
        added = a.added ++ x;
        taker = woken a.taker;
      } in
      let kb : Keeps lv t b = record {
        date = k.date;
        trail = k.trail;
        finished = k.finished;
        at = k.at;
        queued = ap (λ q. q ++ x) k.queued ∙ append_assoc a.taken a.logqueue x;
        handed = k.handed ∙ ap (◌++◌ k.finished) (sym (in_hand-woken a.taker));
        printed = k.printed;
      } in
      choose-Keeps (is_free a.taker) b a kb k

  test-Keeps :
      (q : List (Level × ℕ)) (a : AsyncLog)
      → a.logqueue ≡ q
      → in_hand a.taker ≡ []
      → Keeps lv t a
      → Keeps lv t (test q a)
  test-Keeps [] a e h k = record {
    date = k.date;
    trail = k.trail;
    finished = k.finished;
    at = k.at;
    queued = k.queued;
    handed = k.handed ∙ ap (◌++◌ k.finished) (h ∙ sym (in_hand-rests a.running));
    printed = k.printed;
  }
  test-Keeps ((l, msg) ∷ q) a e h k =
      let f : a.taken ≡ k.finished = k.handed ∙ ap (◌++◌ k.finished) h ∙ append-nil k.finished in
      record {
        date = k.date;
        trail = k.trail;
        finished = k.finished;
        at = k.at;
        queued = k.queued ∙ ap (◌++◌ a.taken) e ∙ sym (append_assoc a.taken ((l, msg) ∷ []) q);
        handed = ap (λ xs. xs ++ (l, msg) ∷ []) f;
        printed = k.printed;
      }

module _ (f : Files) (opens : (tr : List Act) (d : ℕ) → f.opens tr d ≡ true) where
  texts-with_line :
      (l : Level) (msg : ℕ) (lv : Level) (t : Target) (d : ℕ) (tr : List Act)
      → texts (with_line l msg lv t d tr) ≡ texts (lines tr) ++ kept lv ((l, msg) ∷ [])
  texts-with_line l msg lv t d tr = elim (Bool-cases (ltb (rank l) (rank lv))) [
    | inl b ↦ rw b (sym (append-nil (texts (lines tr))))
    | inr b ↦ rw b refl
  ]

  print-Keeps :
      (l : Level) (msg : ℕ) (lv : Level) (t : Target) (a : AsyncLog)
      → a.taker ≡ printing l msg
      → Keeps lv t a
      → (b : AsyncLog) × (turn f (printing l msg) a ≡ ok b) × Keeps lv t b
  unfolding turn
  print-Keeps l msg lv t a e k =
      let (d', tr', c, p) = consume_lem f opens l msg lv t k.date k.trail in
      let g = sink_at lv t d' tr' in
      let r : consume f l msg a.sink ≡ ok g = ap (consume f l msg) k.at ∙ c in
      let done = k.finished ++ (l, msg) ∷ [] in
      (
        record a { sink = g; taker = testing },
        rw r refl,
        record {
          date = d';
          trail = tr';
          finished = done;
          at = refl;
          queued = k.queued;
          handed = k.handed ∙ ap (λ x. k.finished ++ in_hand x) e ∙ sym (append-nil done);
          printed =
              ap texts p
              ∙ texts-with_line l msg lv t (f.today k.trail) k.trail
              ∙ ap (λ x. x ++ kept lv ((l, msg) ∷ [])) k.printed
              ∙ sym (kept-append lv k.finished ((l, msg) ∷ []));
        },
      )

  turn-Keeps :
      (lv : Level) (t : Target) (x : Taker) (a : AsyncLog)
      → a.taker ≡ x
      → Keeps lv t a
      → (b : AsyncLog) × (turn f x a ≡ ok b) × Keeps lv t b
  unfolding turn
  turn-Keeps lv t testing a e k =
      (test a.logqueue a, refl, test-Keeps lv t a.logqueue a refl (ap in_hand e) k)
  turn-Keeps lv t drowsy a e k = (
    record a { taker = asleep },
    refl,
    record {
      date = k.date;
      trail = k.trail;
      finished = k.finished;
      at = k.at;
      queued = k.queued;
      handed = k.handed ∙ ap (λ y. k.finished ++ in_hand y) e;
      printed = k.printed;
    },
  )
  turn-Keeps lv t asleep a e k = (a, refl, k)
  turn-Keeps lv t (printing l msg) a e k = print-Keeps l msg lv t a e k
  turn-Keeps lv t left a e k = (a, refl, k)

  step-Keeps :
      (lv : Level) (t : Target) (op : Op) (a : AsyncLog)
      → Keeps lv t a
      → (b : AsyncLog) × (step f op a ≡ ok b) × Keeps lv t b
  unfolding step
  step-Keeps lv t (adds l msg) a k = (add_log l msg a, refl, add_log-Keeps lv t l msg a k)
  step-Keeps lv t turns a k = turn-Keeps lv t a.taker a refl k
  step-Keeps lv t stops a k = (
    record a { running = false },
    refl,
    record {
      date = k.date;
      trail = k.trail;
      finished = k.finished;
      at = k.at;
      queued = k.queued;
      handed = k.handed;
      printed = k.printed;
    },
  )
  step-Keeps lv t notifies a k = (record a { taker = woken a.taker }, refl, wake-Keeps lv t a k)

  runs-Keeps :
      (lv : Level) (t : Target) (ops : List Op) (a : AsyncLog)
      → Keeps lv t a
      → (b : AsyncLog) × (runs f ops a ≡ ok b) × Keeps lv t b
  unfolding runs
  runs-Keeps lv t [] a k = (a, refl, k)
  runs-Keeps lv t (op ∷ ops) a k =
      let (b, e, h) = step-Keeps lv t op a k in
      let (c, r, j) = runs-Keeps lv t ops b h in (c, rw e r, j)

  -- Where fopen(3) succeeds, every interleaving of calls of addLog, steps of the thread that prints
  -- and the destructor's two halves, from a new log on, runs to its end, and then: the lines queued
  -- are those that were taken and those in the queue, in order; those taken are some that are
  -- finished and the one in hand; and what was printed is those finished that are at INFO or above,
  -- each once and in order.
  pub printed_in_order :
      (ops : List Op) (date : ℕ)
      → (a : AsyncLog) × (finished : List (Level × ℕ)) × (runs f ops (new date) ≡ ok a)
        × (a.added ≡ a.taken ++ a.logqueue)
        × (a.taken ≡ finished ++ in_hand a.taker)
        × (texts (lines a.sink.trail) ≡ kept info finished)
  unfolding new
  printed_in_order ops date =
      let k : Keeps info console (new date) = record {
        date = date;
        trail = [];
        finished = [];
        at = refl;
        queued = refl;
        handed = refl;
        printed = refl;
      } in
      let (a, e, h) = runs-Keeps info console ops (new date) k in
      (a, h.finished, e, h.queued, h.handed, ap (λ g. texts (lines g.trail)) h.at ∙ h.printed)

-- A log whose thread sleeps while its destructor joins.
abbrev dozing : AsyncLog → AsyncLog
dozing a = record a { taker = asleep; running = false }

dozing_stays :
    (f : Files) (n : ℕ) (a : AsyncLog) → runs f (replicate n turns) (dozing a) ≡ ok (dozing a)
unfolding runs step turn
dozing_stays f zero a = refl
dozing_stays f (suc n) a = dozing_stays f n a

-- A destructor that stores and notifies after the thread has found the queue empty, and before it
-- sleeps, is missed: from any log that runs with an empty queue and its thread about to test, after
-- any number of further steps of the thread, none a wake-up without a notification, it sleeps and has
-- not left, and the destructor's join waits.
pub lost_wakeup :
    (f : Files) (n : ℕ) (a : AsyncLog)
    → a.taker ≡ testing
    → a.logqueue ≡ []
    → a.running ≡ true
    → (b : AsyncLog) × (runs f (turns ∷ stops ∷ notifies ∷ turns ∷ replicate n turns) a ≡ ok b)
      × (b.taker ≡ asleep)
      × (b.running ≡ false)
unfolding runs step turn
lost_wakeup f n a e q r =
    let tested : turn f a.taker a ≡ ok (record a { taker = drowsy }) =
      ap (λ x. turn f x a) e
      ∙ ap (λ x. ok (test x a)) q
      ∙ ap (λ x. ok (record a { taker = if x then drowsy else left })) r in
    (dozing a, rw tested (dozing_stays f n a), refl, refl)
