-- ===== src/Logging/Printing.antt =====
-- Where a line goes.
use pqnet.Common.{
  ℕ, suc, ◌≡◌, ◌≢◌, ◌≤◌, refl, ap, true, false, List, [], ◌∷◌, ltb, ◌==◌, if◌then◌else◌, Bool-cases,
  inl, inr, arith,
}
use pqnet.Kernel.{Level, error}
use pqnet.Logging.Files.{
  Target, to_file, console, Stream, out, shut, file, Act, opened, closing, line, Result, ok,
  closes_closed, Files, Sink, fopen, fprintf,
}
use pqnet.Logging.Logger
use pqnet.Logging.Logger.{rank, log, close_file, strerror}
use pqnet.Logging.AsyncLog
use pqnet.Logging.AsyncLog.{consume}

-- The stream of a target on a date.
abbrev pub place : Target → ℕ → Stream
place to_file date = file date
place console date = out

-- A logger that writes to the stream of its target on its date.
abbrev pub sink_at : Level → Target → ℕ → List Act → Sink
sink_at lv t d tr = record { level = lv; target = t; currdate = d; lf = place t d; trail = tr }

-- The lines of a trail, newest first.
abbrev pub lines : List Act → List (Level × ℕ × Stream)
lines [] = []
lines (opened d ∷ tr) = lines tr
lines (closing s ∷ tr) = lines tr
lines (line l msg s ∷ tr) = (l, msg, s) ∷ lines tr

-- The lines after one more of a level, from a logger with a level, a target and a trail, on a date.
abbrev pub with_line : Level → ℕ → Level → Target → ℕ → List Act → List (Level × ℕ × Stream)
with_line l msg lv t date tr =
    if ltb (rank l) (rank lv) then lines tr else (l, msg, place t date) ∷ lines tr

fprintf-place :
    (l : Level) (msg : ℕ) (t : Target) (d : ℕ) (g : Sink)
    → fprintf l msg (place t d) g ≡ ok (record g { trail = line l msg (place t d) ∷ g.trail })
fprintf-place l msg to_file d g = refl
fprintf-place l msg console d g = refl

-- The ERROR of a logger whose stream is closed, and whose date is not today's.
log_again :
    (f : Files) (fuel : ℕ) (lv : Level) (d today : ℕ) (tr : List Act)
    → ((tr' : List Act) → f.today tr' ≡ today)
    → (d == today) ≡ false
    → ltb 3 (rank lv) ≡ false
    → log (suc fuel) f error strerror (record (sink_at lv to_file d tr) { lf = shut })
      ≡ closes_closed
unfolding log Logger.check_date close_file
log_again f fuel lv d today tr c e b = rw b (rw (c tr) (rw e refl))

module _ (f : Files) (opens : (tr : List Act) (d : ℕ) → f.opens tr d ≡ true) where
  check_date_lem :
      (report : Sink → Result Sink) (lv : Level) (t : Target) (d date : ℕ) (tr : List Act)
      → ((tr' : List Act) → f.closes tr' ≡ true)
      → (d' : ℕ) × (tr' : List Act) × (Logger.check_date report f date (sink_at lv t d tr)
          ≡ ok (sink_at lv t d' tr'))
        × (place t d' ≡ place t date)
        × (lines tr' ≡ lines tr)
  unfolding Logger.check_date close_file fopen
  check_date_lem report lv console d date tr h = (d, tr, refl, refl, refl)
  check_date_lem report lv to_file d date tr h = elim (Bool-cases (d == date)) [
    | inl e ↦ (d, tr, rw e refl, (let g : d ≡ date = ground (arith, e) in ap file g), refl)
    | inr e ↦ (
      date,
      opened date ∷ closing (file d) ∷ tr,
      rw e (rw (h tr) (rw (opens (closing (file d) ∷ tr) date) refl)),
      refl,
      refl,
    )
  ]

  async_check_date_lem :
      (lv : Level) (t : Target) (d date : ℕ) (tr : List Act)
      → (d' : ℕ) × (tr' : List Act) × (AsyncLog.check_date f date (sink_at lv t d tr)
          ≡ ok (sink_at lv t d' tr'))
        × (place t d' ≡ place t date)
        × (lines tr' ≡ lines tr)
  unfolding AsyncLog.check_date fopen
  async_check_date_lem lv console d date tr = (d, tr, refl, refl, refl)
  async_check_date_lem lv to_file d date tr = elim (Bool-cases (d == date)) [
    | inl e ↦ (d, tr, rw e refl, (let g : d ≡ date = ground (arith, e) in ap file g), refl)
    | inr e ↦ (
      date,
      opened date ∷ closing (file d) ∷ tr,
      rw e (rw (opens (closing (file d) ∷ tr) date) refl),
      refl,
      refl,
    )
  ]

  -- Where fopen(3) and fclose(3) succeed, a logger that writes to the stream of its target logs, with
  -- fuel for one call, and keeps its level and target: a line below its level changes nothing of
  -- what was printed; any other is printed once, behind all that was printed before, on stdout or,
  -- for a logger to files, on the file of the day that the clock shows at the call, whichever day's
  -- file was open.
  pub log_lem :
      (fuel : ℕ) (l : Level) (msg : ℕ) (lv : Level) (t : Target) (d : ℕ) (tr : List Act)
      → ((tr' : List Act) → f.closes tr' ≡ true)
      → (d' : ℕ) × (tr' : List Act) × (log (suc fuel) f l msg (sink_at lv t d tr)
          ≡ ok (sink_at lv t d' tr'))
        × (lines tr' ≡ with_line l msg lv t (f.today tr) tr)
  unfolding log
  log_lem fuel l msg lv t d tr h =
      let (d', tr', e, p, q) =
        check_date_lem (log fuel f error strerror) lv t d (f.today tr) tr h in
      elim (Bool-cases (ltb (rank l) (rank lv))) [
        | inl b ↦ (d, tr, rw b refl, rw b refl)
        | inr b ↦ (
          d',
          line l msg (place t d') ∷ tr',
          rw b (rw e (fprintf-place l msg t d' (sink_at lv t d' tr'))),
          rw b (rw p (ap (◌∷◌ (l, msg, place t (f.today tr))) q)),
        )
      ]

  -- The same holds of the thread that prints for AsyncLog, whether fclose(3) succeeds or not.
  pub consume_lem :
      (l : Level) (msg : ℕ) (lv : Level) (t : Target) (d : ℕ) (tr : List Act)
      → (d' : ℕ) × (tr' : List Act) × (consume f l msg (sink_at lv t d tr)
          ≡ ok (sink_at lv t d' tr'))
        × (lines tr' ≡ with_line l msg lv t (f.today tr) tr)
  unfolding consume
  consume_lem l msg lv t d tr =
      let (d', tr', e, p, q) = async_check_date_lem lv t d (f.today tr) tr in
      elim (Bool-cases (ltb (rank l) (rank lv))) [
        | inl b ↦ (d, tr, rw b refl, rw b refl)
        | inr b ↦ (
          d',
          line l msg (place t d') ∷ tr',
          rw b (rw e (fprintf-place l msg t d' (sink_at lv t d' tr'))),
          rw b (rw p (ap (◌∷◌ (l, msg, place t (f.today tr))) q)),
        )
      ]

-- Where fclose(3) always fails and the day does not change, a logger to files whose date is not
-- today's, and whose level is ERROR or less, logs a line at or above its level, with fuel for two
-- calls or more, only up to a second fclose(3) of the stream that it has closed: its ERROR about the
-- failure is logged by itself, before its date is set.
pub log_close_fails :
    (f : Files) (fuel : ℕ) (l : Level) (msg : ℕ) (lv : Level) (d today : ℕ) (tr : List Act)
    → ((tr' : List Act) → f.closes tr' ≡ false)
    → ((tr' : List Act) → f.today tr' ≡ today)
    → d ≢ today
    → rank lv ≤ rank l
    → rank lv ≤ rank error
    → log (suc (suc fuel)) f l msg (sink_at lv to_file d tr) ≡ closes_closed
unfolding log Logger.check_date close_file
log_close_fails f fuel l msg lv d today tr h c n p q =
    let a : ltb (rank l) (rank lv) ≡ false = ground (arith, p) in
    let b : ltb 3 (rank lv) ≡ false = ground (arith, q) in
    let e : (d == today) ≡ false = ground (arith, n) in
    let again = log_again f fuel lv d today (closing (file d) ∷ tr) c e b in
    rw a (rw (c tr) (rw e (rw (h tr) (rw again refl))))
