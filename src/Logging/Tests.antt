-- ===== src/Logging/Tests.antt =====
-- A logger to files across midnight, one whose fclose(3) fails, and an asynchronous one.
use pqnet.Common.{ℕ, ◌≡◌, ◌++◌, refl, true, false, List, [], ◌∷◌, replicate, arith}
use pqnet.Kernel.{Level, debug, info, warn}
use pqnet.Logging.Files.{to_file, Act, Files, ok, closes_closed}
use pqnet.Logging.Logger.{log}
use pqnet.Logging.AsyncLog.{AsyncLog, asleep, new, Op, adds, turns, stops, notifies, runs}
use pqnet.Logging.Printing.{sink_at, lines, with_line, log_lem, log_close_fails}
use pqnet.Logging.Waking.{in_hand, kept, texts, printed_in_order, lost_wakeup}

-- All calls succeed, and it is day 21.
abbrev willing : Files
willing = record { closes = λ tr. true; opens = λ tr d. true; today = λ tr. 21 }

-- The same, but fclose(3) fails, as it does where the disk is full.
abbrev full_disk : Files
full_disk = record { closes = λ tr. false; opens = λ tr d. true; today = λ tr. 21 }

log_lem_example :
    (d' : ℕ) × (tr' : List Act) × (log 1 willing warn 7 (sink_at info to_file 20 [])
      ≡ ok (sink_at info to_file d' tr'))
    × (lines tr' ≡ with_line warn 7 info to_file 21 [])
log_lem_example = log_lem willing (λ tr d. refl) 0 warn 7 info to_file 20 [] (λ tr. refl)

log_close_fails_example : log 9 full_disk warn 7 (sink_at info to_file 20 []) ≡ closes_closed
log_close_fails_example =
    log_close_fails full_disk 7 warn 7 info 20 21 [] (λ tr. refl) (λ tr. refl) (ground arith)
      (omega arith) (omega arith)

-- Two callers and the thread.
abbrev ops : List Op
ops = adds info 1 ∷ turns ∷ adds debug 2 ∷ turns ∷ turns ∷ turns ∷ turns ∷ []

printed_in_order_example :
    (a : AsyncLog) × (finished : List (Level × ℕ)) × (runs willing ops (new 20) ≡ ok a)
    × (a.added ≡ a.taken ++ a.logqueue)
    × (a.taken ≡ finished ++ in_hand a.taker)
    × (texts (lines a.sink.trail) ≡ kept info finished)
printed_in_order_example = printed_in_order willing (λ tr d. refl) ops 20

lost_wakeup_example :
    (b : AsyncLog) × (runs willing (turns ∷ stops ∷ notifies ∷ turns ∷ replicate 5 turns) (new 20)
      ≡ ok b)
    × (b.taker ≡ asleep)
    × (b.running ≡ false)
unfolding new
lost_wakeup_example = lost_wakeup willing 5 (new 20) refl refl refl
