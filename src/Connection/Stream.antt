-- ===== src/Connection/Stream.antt =====
-- The bytes given to `send` reach the kernel in order: none is lost, reordered or doubled on the way
-- through the output buffer, but for the branch where the direct write(2) fails.
use pqnet.Common.{
  ℕ, ◌+◌, ◌-◌, ◌≤◌, ◌<◌, ◌≡◌, refl, sym, ap, ◌∙◌, ◌⊎◌, inl, inr, true, false, some, List, [], ◌∷◌,
  ◌++◌, append-nil, append_assoc, arith, length, take, drop, ◌==◌, Bool-cases, lt→ltb, zero, suc,
  ◌>>=◌, ==_iff, take-append-drop, length-append, length-drop, take_all, drop_all,
}
use pqnet.Kernel.{
  on_written, log, error, WriteResult, accepted, write_failed, History, Kernel, sent_on, sys_write,
  count_of, sys_write-le, sent_on-sys_write,
}
use pqnet.Trigger.{like_writing, is_like_writing}
use pqnet.Buffer.{Buffer, unread, readable_bytes, append}
use pqnet.Buffer.Valid
use pqnet.Buffer.Append
use pqnet.Buffer.Contents
use pqnet.Connection.Defs.{World, User, call, log_at, arm, queue_rest, send, after_write}
use pqnet.Connection.Sound.{IsSound, IsPolite, Extends, Extends-trans, call_lem, stream, fd}

arm_lem :
    (k : Kernel) (s : World) (rest : List ℕ) (out : Buffer)
    → IsSound s
    → 0 < length rest
    → append s.conn.output rest ≡ some out
    → (fd (arm k s out) ≡ fd s) × IsSound (arm k s out) × (stream (arm k s out) ≡ stream s ++ rest)
unfolding is_like_writing like_writing sent_on
arm_lem k s rest out v pos e = (
  ground arith,
  record {
    input = ground (arith, v.input);
    output = ground (arith, Valid.append-IsValid s.conn.output rest v.output e);
    armed = ground (arith, grown, length-append (unread s.conn.output) rest);
  },
  ground (arith, grown, append_assoc (sent_on (fd s) s.history) (unread s.conn.output) rest),
)
  where
    grown : unread out ≡ unread s.conn.output ++ rest
    grown = Contents.unread-append s.conn.output rest v.output e

-- Pending bytes and new ones fit behind each other in the output buffer.
abbrev pub HasRoom : World → List ℕ → Type 0
HasRoom s xs = length (unread s.conn.output) + length xs ≤ length s.conn.output.buf

abbrev Queues : Kernel → World → List ℕ → Type 0
Queues k s rest =
    (s' : World) × (queue_rest k rest s ≡ some s')
    × (fd s' ≡ fd s)
    × IsSound s'
    × (stream s' ≡ stream s ++ rest)

queue_rest-some :
    (k : Kernel) (s : World) (rest : List ℕ) (out : Buffer)
    → 0 < length rest
    → append s.conn.output rest ≡ some out
    → queue_rest k rest s ≡ some (arm k s out)
unfolding queue_rest
queue_rest-some k s rest out pos e = rw (lt→ltb 0 (length rest) pos, e)

queue_rest_lem :
    (k : Kernel) (s : World) (rest : List ℕ) → IsSound s → HasRoom s rest → Queues k s rest
unfolding queue_rest
queue_rest_lem k s [] v room = (s, refl, refl, v, sym (append-nil _))
queue_rest_lem k s (x ∷ xs) v room =
    let fit =
      Append.append-Fits (x ∷ xs) v.output (inl (omega (arith, Valid.length-unread v.output))) in
    let a = arm_lem k s (x ∷ xs) fit.0 v (omega arith) fit.1 in
    (arm k s fit.0, queue_rest-some k s (x ∷ xs) fit.0 (omega arith) fit.1, a.0, a.1, a.2)

-- What the code takes for a failure of the direct write(2): -1, or 0.
abbrev pub Refused : Kernel → World → List ℕ → Type 0
Refused k s xs =
    (s.conn.tg.events.writing ≡ false) × (count_of (sys_write k (fd s) xs s.history).0 ≡ 0)

-- `send` returns, and the connection is sound. Its bytes come right behind those owed before, unless
-- nothing was pending and the direct write failed.
abbrev pub Sends : Kernel → User → World → List ℕ → Type 0
Sends k user s xs =
    (s' : World) × (send k user xs s ≡ some s')
    × ((Refused k s xs × (fd s' ≡ fd s) × IsSound s' × (stream s' ≡ stream s)) ⊎ Extends s xs s')

-- After the kernel took the first bytes of `xs` while nothing was pending.
abbrev at_history : World → History → World
at_history s h = record s { history = h }

module _ (k : Kernel) (s : World) (xs : List ℕ) (v : IsSound s)
    (empty : unread s.conn.output ≡ []) where
  abbrev then_at : History → World
  then_at h = at_history s h

  then_at-IsSound : (h : History) → IsSound (then_at h)
  then_at-IsSound h = record { input = v.input; output = v.output; armed = v.armed }

  taken_lem :
      (n : ℕ) (h : History)
      → sent_on (fd s) h ≡ sent_on (fd s) s.history ++ take n xs
      → stream (then_at h) ≡ stream s ++ take n xs
  taken_lem n h e = rw (e, empty) (simp append-nil)

  -- Nothing was taken: the failure is logged, and the bytes are given up.
  none_taken :
      (h : History)
      → Refused k s xs
      → sent_on (fd s) h ≡ sent_on (fd s) s.history ++ []
      → Refused k s xs
        × (fd s ≡ fd s)
        × IsSound (log_at error (then_at h))
        × (stream (log_at error (then_at h)) ≡ stream s)
  unfolding sent_on
  none_taken h r e = (
    r,
    refl,
    then_at-IsSound (log error ∷ h),
    ap (λ z. z ++ unread s.conn.output) (e ∙ append-nil _),
  )

module _ (k : Kernel) (user : User) (s : World) (xs : List ℕ) (polite : IsPolite user)
    (v : IsSound s) (empty : unread s.conn.output ≡ []) where
  -- All of it was taken: the callback is called, and nothing is left to queue.
  all_taken :
      (n : ℕ) (h : History)
      → length xs ≡ n
      → sent_on (fd s) h ≡ sent_on (fd s) s.history ++ take n xs
      → (s' : World) × ((call k user on_written s.conn.wccb (at_history s h) >>= λ s2.
            queue_rest k (drop n xs) s2)
          ≡ some s')
        × Extends s xs s'
  unfolding queue_rest
  all_taken n h full e =
      let c =
        call_lem k user on_written s.conn.wccb (at_history s h) polite
          (then_at-IsSound k s xs v empty h) in
      (
        c.0,
        rw (c.1, drop_all n xs (omega arith)),
        Extends-trans s (at_history s h) c.0 xs refl
            (taken_lem k s xs v empty n h e ∙ ap (λ z. stream s ++ z) (take_all n xs (omega arith)))
            c.2,
      )

  -- A part was taken: the rest is queued.
  part_taken :
      (n : ℕ) (h : History)
      → HasRoom s xs
      → sent_on (fd s) h ≡ sent_on (fd s) s.history ++ take n xs
      → (s' : World) × (queue_rest k (drop n xs) (at_history s h) ≡ some s') × Extends s xs s'
  part_taken n h room e =
      let q =
        queue_rest_lem k (at_history s h) (drop n xs) (then_at-IsSound k s xs v empty h)
          (omega (arith, length-drop n xs)) in
      (
        q.0,
        q.1,
        (
          q.2,
          q.3,
          [],
          q.4
              ∙ ap (λ z. z ++ drop n xs) (taken_lem k s xs v empty n h e)
              ∙ append_assoc (stream s) (take n xs) (drop n xs)
              ∙ ap (λ z. stream s ++ z) (take-append-drop n xs ∙ sym (append-nil xs)),
        ),
      )

  direct_lem :
      (r : WriteResult × History)
      → HasRoom s xs
      → (count_of r.0 ≡ 0 → Refused k s xs)
      → count_of r.0 ≤ length xs
      → sent_on (fd s) r.1 ≡ sent_on (fd s) s.history ++ take (count_of r.0) xs
      → (s' : World) × (after_write k user xs s r ≡ some s')
        × ((Refused k s xs × (fd s' ≡ fd s) × IsSound s' × (stream s' ≡ stream s))
            ⊎ Extends s xs s')
  direct_lem (write_failed, h) room refused le e =
      (log_at error (at_history s h), refl, inl (none_taken k s xs v empty h (refused refl) e))
  direct_lem (accepted zero, h) room refused le e =
      (log_at error (at_history s h), refl, inl (none_taken k s xs v empty h (refused refl) e))
  direct_lem (accepted (suc m), h) room refused le e =
      rw (lt→ltb 0 (suc m) (omega arith)) (elim (Bool-cases ((length xs - suc m) == 0)) [
        | inl all ↦
            let a = all_taken (suc m) h (omega (arith, (==_iff (length xs - suc m) 0).0 all)) e in
            rw all ((a.0, a.1, inr a.2))
        | inr part ↦ let a = part_taken (suc m) h room e in rw part ((a.0, a.1, inr a.2))
      ])

send_queues :
    (k : Kernel) (user : User) (s : World) (xs : List ℕ)
    → s.conn.tg.events.writing ≡ true
    → send k user xs s ≡ queue_rest k xs s
unfolding send is_like_writing
send_queues k user s xs on = ground arith

send_directly :
    (k : Kernel) (user : User) (s : World) (xs : List ℕ)
    → s.conn.tg.events.writing ≡ false
    → readable_bytes s.conn.output ≡ 0
    → send k user xs s ≡ after_write k user xs s (sys_write k (fd s) xs s.history)
unfolding send is_like_writing
send_directly k user s xs off none_left = ground arith

-- With EPOLLOUT not asked for, a sound connection has nothing pending.
nothing_pending :
    (s : World) → IsSound s → s.conn.tg.events.writing ≡ false → unread s.conn.output ≡ []
nothing_pending s v off = ground arith

none_left :
    (s : World) → IsSound s → s.conn.tg.events.writing ≡ false → readable_bytes s.conn.output ≡ 0
none_left s v off =
    Valid.readable_bytes_lem v.output
    ∙ sym (Valid.length-unread v.output)
    ∙ ap length (nothing_pending s v off)

refused_lem :
    (k : Kernel) (user : User) (s : World) (xs : List ℕ) (r : WriteResult × History)
    → count_of r.0 ≡ 0
    → after_write k user xs s r ≡ some (log_at error (at_history s r.1))
refused_lem k user s xs (write_failed, h) e = refl
refused_lem k user s xs (accepted zero, h) e = refl
refused_lem k user s xs (accepted (suc n), h) e = absurd (omega arith)

-- `send` on a sound connection with room for the bytes returns, whatever the kernel answers, and
-- leaves it sound: its bytes come right behind those owed before, in order, unless the direct write(2)
-- was tried and refused.
pub send_lem :
    (k : Kernel) (user : User) (s : World) (xs : List ℕ)
    → IsPolite user
    → IsSound s
    → HasRoom s xs
    → Sends k user s xs
send_lem k user s xs p v room = elim (Bool-cases s.conn.tg.events.writing) [
  | inl on ↦
      let q = queue_rest_lem k s xs v room in
      (
        q.0,
        send_queues k user s xs on ∙ q.1,
        inr (q.2, q.3, [], q.4 ∙ ap (λ z. stream s ++ z) (sym (append-nil xs))),
      )
  | inr off ↦
      let empty = nothing_pending s v off in
      let d =
        direct_lem k user s xs p v empty (sys_write k (fd s) xs s.history) room (λ z. (off, z))
          (sys_write-le k (fd s) xs s.history) (sent_on-sys_write k (fd s) xs s.history) in
      (d.0, send_directly k user s xs off (none_left s v off) ∙ d.1, d.2)
]

-- Where the direct write(2) is refused (EAGAIN among the reasons), `send` gives the bytes up: it
-- neither queues them nor asks for EPOLLOUT.
pub send_drops :
    (k : Kernel) (user : User) (s : World) (xs : List ℕ)
    → IsSound s
    → Refused k s xs
    → (s' : World) × (send k user xs s ≡ some s')
      × (stream s' ≡ stream s)
      × (s'.conn.tg.events.writing ≡ false)
send_drops k user s xs v r =
    let empty = nothing_pending s v r.0 in
    let w = sys_write k (fd s) xs s.history in
    let same = ap (λ n. sent_on (fd s) s.history ++ take n xs) r.1 in
    let lost = none_taken k s xs v empty w.1 r (sent_on-sys_write k (fd s) xs s.history ∙ same) in
    (
      log_at error (at_history s w.1),
      send_directly k user s xs r.0 (none_left s v r.0) ∙ refused_lem k user s xs w r.1,
      lost.3,
      r.0,
    )
