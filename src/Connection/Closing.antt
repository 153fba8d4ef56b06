-- ===== src/Connection/Closing.antt =====
-- The end of a connection: how often the close callback runs, and what becomes of `shutdown`.
use pqnet.Common.{
  ℕ, suc, ◌+◌, ◌≤◌, ◌≡◌, refl, ◌≢◌, Bool, true, false, Option, none, some, List, [], ◌∷◌, arith,
  ltb, length, ◌==◌, if◌then◌else◌, not, ◌&&◌, ◌-◌, drop, ◌>>=◌,
}
use pqnet.Kernel.{
  Kernel, History, Slot, log, error, called, on_connect, on_close, on_remove, on_message,
  on_written, OnlyReads, no_read, one_read, one_failed, WriteResult, accepted, write_failed,
  sys_write, debug,
}
use pqnet.Trigger.{like_writing, omit_writing, remove_from_loop, is_like_writing}
use pqnet.Buffer.{
  Buffer, Ssize, count, sys_error, buffer_size_maximum, write_to, readable_bytes, read_from,
}
use pqnet.Connection.Defs.{
  World, User, Status, connected, disconnected, disconnecting, connecting, call, is_connected,
  announce_close, set_status, queue_rest, after_write, send, shutdown, shutdown_in_loop,
  after_read_from, handle_read, after_write_to, handle_write, handle_close, handle_error,
  connect_destroyed, log_at, with_input, with_output,
}
use pqnet.Buffer.Valid.{IsValid}
use pqnet.Buffer.Read.{Reads, read_from-Reads}
use native.Mathlib.Nat.{le_of_eq}
use mathlib.Core.Path.{subst}
use pqnet.Connection.Steps.{
  Op, establishes, destroys, sends, asks_shutdown, shuts, reads, writes, closes, errs, step,
}

-- How often the close callback was called.
pub close_calls : History → ℕ
close_calls [] = 0
close_calls (called on_close fd ∷ h) = suc (close_calls h)
close_calls (_ ∷ h) = close_calls h

abbrev open_count : Status → ℕ
open_count connected = 1
open_count _ = 0

-- The close calls made, and the one that a connected connection has still to make.
abbrev pub close_credit : World → ℕ
close_credit s = close_calls s.history + open_count s.conn.status

-- A callback that neither changes the status nor closes.
abbrev pub IsReserved : User → Type 0
IsReserved user =
    (cb : ℕ) (s s' : World)
    → user cb s ≡ some s'
    → (s'.conn.status ≡ s.conn.status) × (close_calls s'.history ≡ close_calls s.history)

pub bind_inv :
    {A B : Type 0} (r : Option A) (f : A → Option B) {b : B}
    → (r >>= f) ≡ some b
    → (a : A) × (r ≡ some a) × (f a ≡ some b)
bind_inv none f e = absurd (cc)
bind_inv (some a) f e = (a, refl, e)

close_calls-OnlyReads : {h g : History} → OnlyReads h g → close_calls g ≡ close_calls h
unfolding close_calls
close_calls-OnlyReads no_read = refl
close_calls-OnlyReads (one_read fd n bs p) = close_calls-OnlyReads p
close_calls-OnlyReads (one_failed fd n p) = close_calls-OnlyReads p

close_calls-sys_write :
    (k : Kernel) (fd : ℕ) (xs : List ℕ) (h : History)
    → close_calls (sys_write k fd xs h).1 ≡ close_calls h
unfolding sys_write close_calls
close_calls-sys_write k fd xs h = ground arith

close_calls-write_to :
    (k : Kernel) (fd len : ℕ) (b : Buffer) (h : History)
    → close_calls (write_to k fd b len h).2 ≡ close_calls h
unfolding write_to sys_write close_calls
close_calls-write_to k fd len b h = ground arith

module _ (k : Kernel) (user : User) (reserved : IsReserved user) where
  -- A call from any other slot keeps the credit and the status.
  call_credit :
      (slot : Slot) (cb : Option ℕ) (s s' : World)
      → slot ≢ on_close
      → call k user slot cb s ≡ some s'
      → (s'.conn.status ≡ s.conn.status) × (close_calls s'.history ≡ close_calls s.history)
  unfolding close_calls
  call_credit slot none s s' other e = ground arith
  call_credit on_close (some cb) s s' other e = absurd (other refl)
  call_credit on_connect (some cb) s s' other e = reserved cb _ s' e
  call_credit on_remove (some cb) s s' other e = reserved cb _ s' e
  call_credit on_message (some cb) s s' other e = reserved cb _ s' e
  call_credit on_written (some cb) s s' other e = reserved cb _ s' e

  -- The close callback spends the credit, if there is any.
  announce_close_credit :
      (s s' : World)
      → announce_close k user s ≡ some s'
      → (close_calls s'.history ≤ close_credit s) × (s'.conn.status ≡ s.conn.status)
  unfolding close_calls
  announce_close_credit s s' e = go s.conn.status s.conn.closecb e
    where
      go :
          (st : Status) (cb : Option ℕ)
          → (if is_connected st then call k user on_close cb s else some s) ≡ some s'
          → (close_calls s'.history ≤ close_calls s.history + open_count st)
            × (s'.conn.status ≡ s.conn.status)
      go connected none e = ground arith
      go connected (some cb) e =
          let r =
            reserved cb (record s { history = called on_close s.conn.tg.fd ∷ s.history }) s' e in
          (ground (arith, r), r.0)
      go disconnected cb e = ground arith
      go connecting cb e = ground arith
      go disconnecting cb e = ground arith

  -- No more is spent than there was.
  abbrev Spends : World → Option World → Type 0
  Spends s r = (s' : World) → r ≡ some s' → close_credit s' ≤ close_credit s

  some-Spends : (s t : World) → close_credit t ≤ close_credit s → Spends s (some t)
  some-Spends s t le s' e = ground arith

  if-Spends :
      (s : World) (c : Bool) (x y : Option World)
      → Spends s x
      → Spends s y
      → Spends s (if c then x else y)
  if-Spends s true x y p q = p
  if-Spends s false x y p q = q

  bind-Spends :
      (s : World) (r : Option World) (f : World → Option World)
      → Spends s r
      → ((t : World) → Spends t (f t))
      → Spends s (r >>= f)
  bind-Spends s none f p q s' e = absurd (cc)
  bind-Spends s (some t) f p q s' e = omega (arith, p t refl, q t s' e)

  then_call-Spends :
      (slot : Slot) (cb : Option ℕ) (s t : World)
      → slot ≢ on_close
      → close_credit t ≤ close_credit s
      → Spends s (call k user slot cb t)
  then_call-Spends slot cb s t other le s' e = ground (arith, call_credit slot cb t s' other e)

  queue_rest_credit :
      (rest : List ℕ) (s s' : World)
      → queue_rest k rest s ≡ some s'
      → close_credit s' ≡ close_credit s
  unfolding queue_rest is_like_writing like_writing close_calls
  queue_rest_credit rest s s' e = ground arith

  handle_close-Spends : (s : World) → Spends s (handle_close k user s)
  unfolding handle_close close_calls
  handle_close-Spends s s' e =
      let (t, e1, e2) = bind_inv (announce_close k user (log_at debug s)) _ e in
      let a = announce_close_credit (log_at debug s) t e1 in
      let c = call_credit on_remove t.conn.rmcb (set_status disconnecting t) s' (λ z. cc) e2 in
      ground (arith, a, c)

  connect_destroyed-Spends : (s : World) → Spends s (connect_destroyed k user s)
  unfolding connect_destroyed remove_from_loop close_calls
  connect_destroyed-Spends s s' e =
      let (t, e1, e2) = bind_inv (announce_close k user (log_at debug s)) _ e in
      let a = announce_close_credit (log_at debug s) t e1 in ground (arith, a)

  after_write-Spends :
      (xs : List ℕ) (s : World) (r : WriteResult × History)
      → close_calls r.1 ≡ close_calls s.history
      → Spends s (after_write k user xs s r)
  unfolding close_calls
  after_write-Spends xs s (write_failed, h) w s' e = ground arith
  after_write-Spends xs s (accepted n, h) w s' e =
      let t = record s { history = h } in
      let same : close_credit t ≤ close_credit s = omega (arith, w) in
      if-Spends s (ltb 0 n) _ _
        (bind-Spends s _ _
          (if-Spends s ((length xs - n) == 0) _ _
            (then_call-Spends on_written s.conn.wccb s t (λ z. cc) same) (some-Spends s t same))
          (λ u v e. le_of_eq (queue_rest_credit (drop n xs) u v e)))
        (some-Spends s (log_at error t) same) s' e

  send-Spends : (xs : List ℕ) (s : World) → Spends s (send k user xs s)
  unfolding send
  send-Spends xs s =
      if-Spends s (not (is_like_writing s.conn.tg) && (readable_bytes s.conn.output == 0)) _ _
        (after_write-Spends xs s (sys_write k s.conn.tg.fd xs s.history)
          (close_calls-sys_write k s.conn.tg.fd xs s.history))
        (λ v e. le_of_eq (queue_rest_credit xs s v e))

  after_read-Spends :
      (s : World) (r : Ssize × Buffer × History)
      → close_calls r.2 ≡ close_calls s.history
      → Spends s (after_read_from k user s r)
  unfolding close_calls
  after_read-Spends s (count m, b, h) w s' e =
      let t = with_input s b h in
      let same : close_credit t ≤ close_credit s = omega (arith, w) in
      if-Spends s (ltb 0 m) _ _ (then_call-Spends on_message s.conn.macb s t (λ z. cc) same)
        (λ v e. omega (arith, same, handle_close-Spends t v e)) s' e
  after_read-Spends s (sys_error, b, h) w s' e = ground arith
  after_read-Spends s (buffer_size_maximum, b, h) w s' e = ground arith

  after_write_to-Spends :
      (s : World) (r : Ssize × Buffer × History)
      → close_calls r.2 ≡ close_calls s.history
      → Spends s (after_write_to k user s r)
  unfolding close_calls omit_writing
  after_write_to-Spends s (count m, b, h) w s' e =
      let t = with_output s b h in
      let same : close_credit t ≤ close_credit s = omega (arith, w) in
      if-Spends s (ltb 0 m) _ _
        (if-Spends s (readable_bytes b == 0) _ _
          (then_call-Spends on_written s.conn.wccb s _ (λ z. cc) (ground (arith, w)))
          (some-Spends s t same))
        (some-Spends s (log_at error t) same) s' e
  after_write_to-Spends s (sys_error, b, h) w s' e = ground arith
  after_write_to-Spends s (buffer_size_maximum, b, h) w s' e = ground arith

  handle_read-Spends : (s : World) → IsValid s.conn.input → Spends s (handle_read k user s)
  unfolding handle_read close_calls
  handle_read-Spends s v s' e =
      let h = log debug ∷ s.history in
      let (r, e1, e2) = bind_inv (read_from k s.conn.tg.fd s.conn.input h) _ e in
      after_read-Spends s r (went r e1) s' e2
    where
      went :
          (r : Ssize × Buffer × History)
          → read_from k s.conn.tg.fd s.conn.input (log debug ∷ s.history) ≡ some r
          → close_calls r.2 ≡ close_calls s.history
      went r e1 =
          let x =
            subst (Reads s.conn.tg.fd s.conn.input (log debug ∷ s.history)) e1
              (read_from-Reads k s.conn.tg.fd (log debug ∷ s.history) v) in
          close_calls-OnlyReads x.5

  -- Whatever happens to a connection but its establishment, the close callback is called at most once
  -- while it is connected and not at all once it is not: the calls made, plus one while connected,
  -- never grow.
  pub close_credit-step :
      (op : Op) (s s' : World)
      → op ≢ establishes
      → IsValid s.conn.input
      → step k user op s ≡ some s'
      → close_credit s' ≤ close_credit s
  unfolding step shutdown shutdown_in_loop handle_write handle_error close_calls
  close_credit-step establishes s s' other v e = absurd (other refl)
  close_credit-step destroys s s' other v e = connect_destroyed-Spends s s' e
  close_credit-step (sends xs) s s' other v e = send-Spends xs s s' e
  close_credit-step asks_shutdown s s' other v e = ground arith
  close_credit-step shuts s s' other v e = ground arith
  close_credit-step reads s s' other v e = handle_read-Spends s v s' e
  close_credit-step writes s s' other v e =
      after_write_to-Spends s
        (write_to k s.conn.tg.fd s.conn.output (readable_bytes s.conn.output) s.history)
        (close_calls-write_to k s.conn.tg.fd (readable_bytes s.conn.output) s.conn.output s.history)
        s' e
  close_credit-step closes s s' other v e = handle_close-Spends s s' e
  close_credit-step errs s s' other v e = ground arith
