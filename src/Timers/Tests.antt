-- ===== src/Timers/Tests.antt =====
-- Runs of the timer queue, and its theorems at them.
use pqnet.Common.{◌+◌, ◌%◌, ◌^◌, All, ℕ, suc, ◌≡◌, ◌⊎◌, refl, true, List, [], ◌∷◌, ◌++◌, arith, All}
use pqnet.TimeStamp.{TimeStamp, int16}
use pqnet.Timers.Defs.{
  Entry, TimerQueue, User, done, add_timer, del_timer, handle, insert, erase_id, is_head, before,
  is_live, is_periodic,
}
use pqnet.Timers.Order.{micros, IsSorted, IsOther, add_timer_lem, del_timer_lem}
use pqnet.Timers.Handling.{IsBack, handle_lem, renew, runs}
use pqnet.Timers.Expiry.{runs_twice}

abbrev at_noon : TimeStamp
at_noon = record { sec = 43200; usec = 0 }

abbrev once : Entry
once = (43199000000, record { timercb = 1; arg = 0; id = 16; interval = 0 })

abbrev often : Entry
often = (43200000000, record { timercb = 2; arg = 0; id = 32; interval = 500 })

abbrev afterwards : Entry
afterwards = (43201000000, record { timercb = 3; arg = 0; id = 16; interval = 0 })

abbrev often_again : Entry
often_again = (43200500000, record { timercb = 2; arg = 0; id = 32; interval = 500 })

abbrev idle : User
idle ran q = q

abbrev queue_of : ℕ → List Entry → TimerQueue
queue_of rh es = record { rh_timer_id = rh; tmqueue = es }

-- Both ended timers run; the periodic one goes back in.
handle_lem_example :
    (handle idle 3 at_noon
        (record { queue = queue_of 0 (once ∷ often ∷ afterwards ∷ []); ran = [] })
      ≡ done (record {
        queue = queue_of 0 (renew (int16 at_noon) (once ∷ often ∷ []) (afterwards ∷ []));
        ran = runs (once ∷ often ∷ []) [];
      }))
    × All
        (IsBack (int16 at_noon) (renew (int16 at_noon) (once ∷ often ∷ []) (afterwards ∷ [])))
        (once ∷ often ∷ [])
unfolding int16 before
handle_lem_example =
    handle_lem idle 3 at_noon 0 (once ∷ often ∷ []) (afterwards ∷ []) [] (λ ran q. refl)
      (omega arith) (omega arith) ((refl, tt), (tt, tt)) (refl, (refl, tt)) (refl, tt)
      (refl, (refl, tt)) (refl, (refl, tt))

renew_example :
    renew (int16 at_noon) (once ∷ often ∷ []) (afterwards ∷ []) ≡ often_again ∷ afterwards ∷ []
unfolding insert before is_periodic int16
renew_example = refl

add_timer_lem_example :
    let e : Entry = (
      (int16 at_noon + micros 7) % 2 ^ 64,
      record { timercb = 5; arg = 1; id = 48; interval = 0 },
    ) in
    let (id, q') = add_timer 48 at_noon 5 1 7 0 (queue_of 0 (often ∷ afterwards ∷ [])) in
    (id ≡ 48)
    × (q'.rh_timer_id ≡ 0)
    × IsSorted (q'.tmqueue)
    × (((is_live e (often ∷ afterwards ∷ []) ≡ true) × (q'.tmqueue ≡ often ∷ afterwards ∷ []))
        ⊎ ((xs ys : List Entry) × (often ∷ afterwards ∷ [] ≡ xs ++ ys)
            × (q'.tmqueue ≡ xs ++ e ∷ ys)))
unfolding before
add_timer_lem_example =
    add_timer_lem 48 at_noon 5 1 7 0 (queue_of 0 (often ∷ afterwards ∷ [])) ((refl, tt), (tt, tt))

del_timer_lem_example :
    let q = queue_of 0 (once ∷ often ∷ afterwards ∷ []) in
    IsSorted ((del_timer 16 q).tmqueue)
    × ((All (IsOther 16) q.tmqueue × ((del_timer 16 q).tmqueue ≡ q.tmqueue))
        ⊎ ((xs : List Entry) × (d : Entry) × (ys : List Entry) × (q.tmqueue ≡ xs ++ d ∷ ys)
            × All (IsOther 16) xs
            × (d.1.id ≡ 16)
            × ((del_timer 16 q).tmqueue ≡ xs ++ ys)))
unfolding before
del_timer_lem_example =
    del_timer_lem 16 (queue_of 0 (once ∷ often ∷ afterwards ∷ []))
      ((refl, (refl, tt)), ((refl, tt), (tt, tt)))

-- The first of two timers of one id is taken out, and its id is marked.
del_timer_run : del_timer 16 (queue_of 0 (once ∷ afterwards ∷ [])) ≡ queue_of 16 (afterwards ∷ [])
unfolding del_timer erase_id is_head
del_timer_run = refl

abbrev before_noon : Entry
before_noon = (43198000000, record { timercb = 4; arg = 0; id = 16; interval = 0 })

runs_twice_example :
    (handle idle (suc (suc 5)) at_noon (record {
      queue = del_timer 16 (queue_of 0 (before_noon ∷ once ∷ afterwards ∷ []));
      ran = [];
    })
      ≡ done (record { queue = queue_of 0 (once ∷ afterwards ∷ []); ran = once.1 ∷ [] }))
    × (handle idle
          (suc (suc 5))
          at_noon
          (record { queue = queue_of 0 (once ∷ afterwards ∷ []); ran = once.1 ∷ [] })
        ≡ done (record { queue = queue_of 0 (afterwards ∷ []); ran = once.1 ∷ once.1 ∷ [] }))
unfolding int16
runs_twice_example =
    runs_twice idle 5 at_noon 0 before_noon once (afterwards ∷ []) [] (λ ran q. refl) (omega arith)
      refl (λ e. absurd (omega arith)) refl refl (refl, tt)
