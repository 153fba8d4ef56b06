-- ===== src/Connection/Handlers.antt =====
-- Every handler returns, keeps a sound connection sound and takes nothing back from its stream.
use pqnet.Common.{
  ℕ, ◌≡◌, refl, ap, ◌⊎◌, inl, inr, Bool, true, false, Option, none, some, [], ◌∷◌, ◌++◌, arith,
  length, drop, length-drop, ltb, ◌==◌, Bool-cases, if◌then◌else◌, ◌>>=◌,
}
use pqnet.Kernel.{
  History, Kernel, sent_on, sent_on-OnlyReads, error, on_connect, on_close, on_remove, on_message,
  on_written, log, debug,
}
use pqnet.Trigger.{omit_writing, like_reading, add_to_loop, remove_from_loop}
use pqnet.Buffer.{
  Buffer, unread, readable_bytes, Ssize, count, sys_error, buffer_size_maximum, read_from, write_to,
  Outcome,
}
use pqnet.Buffer.Valid
use pqnet.Buffer.Read
use pqnet.Buffer.Write
use pqnet.Connection.Defs.{
  World, User, call, log_at, drained, with_output, with_input, after_write_to, handle_write,
  after_read_from, handle_read, handle_close, connect_established, connect_destroyed,
  announce_close, is_connected, release, set_status, disconnected, disconnecting,
}
use pqnet.Connection.Sound.{IsSound, IsPolite, stream, fd}
use pqnet.Connection.Keeps.{
  Keeps, settle, after, with_status, Keeps-bind, logged, logged_stream, then_call,
}

module _ (k : Kernel) (user : User) (polite : IsPolite user) where
  drained_lem :
      (s : World)
      → Valid.IsValid s.conn.input
      → Valid.IsValid s.conn.output
      → unread s.conn.output ≡ []
      → Keeps s (drained k user s)
  unfolding omit_writing sent_on
  drained_lem s vi vo empty =
      then_call k user polite on_written s.conn.wccb s _ refl (ground arith)
        (record { input = vi; output = vo; armed = ground arith })

  -- What is left of the pending bytes after a write.
  abbrev Left : World → Ssize → Buffer → Type 0
  Left s n b =
      ((n ≡ sys_error) × (unread b ≡ unread s.conn.output))
      ⊎ ((m : ℕ) × (n ≡ count m) × (unread b ≡ drop m (unread s.conn.output)))

  log_output :
      (s : World) (b : Buffer) (h : History)
      → IsSound s
      → sent_on (fd s) h ++ unread b ≡ stream s
      → Valid.IsValid b
      → unread b ≡ unread s.conn.output
      → Keeps s (some (log_at error (with_output s b h)))
  unfolding sent_on
  log_output s b h v e vb same =
      settle s _ refl (record { input = v.input; output = vb; armed = rw same v.armed }) e

  some-Left :
      (s : World) (m : ℕ) (b : Buffer)
      → IsSound s
      → Left s (count m) b
      → (readable_bytes b == 0) ≡ false
      → Valid.IsValid b
      → s.conn.tg.events.writing ≡ ltb 0 (length (unread b))
  some-Left s m b v c more vb = ground (
    arith,
    v.armed,
    Valid.readable_bytes_lem vb,
    Valid.length-unread vb,
    length-drop m (unread s.conn.output),
    c,
  )

  no_bytes : (b : Buffer) → Valid.IsValid b → (readable_bytes b == 0) ≡ true → unread b ≡ []
  no_bytes b vb all = ground (arith, Valid.readable_bytes_lem vb, Valid.length-unread vb)

  after_write_to_lem :
      (s : World) (r : Ssize × Buffer × History)
      → IsSound s
      → sent_on (fd s) r.2 ++ unread r.1 ≡ stream s
      → Valid.IsValid r.1
      → Left s r.0 r.1
      → Keeps s (after_write_to k user s r)
  after_write_to_lem s (count m, b, h) v e vb c = elim (Bool-cases (ltb 0 m)) [
    | inl some_taken ↦ rw some_taken (elim (Bool-cases (readable_bytes b == 0)) [
      | inl all ↦ rw all (
          after s (with_output s b h) _ refl e
            (drained_lem (with_output s b h) v.input vb (no_bytes b vb all)))
      | inr more ↦ rw more (
          settle s (with_output s b h) refl
            (record { input = v.input; output = vb; armed = some-Left s m b v c more vb }) e)
    ])
    | inr none_taken ↦ rw none_taken (log_output s b h v e vb (ground (arith, c, none_taken)))
  ]
  after_write_to_lem s (sys_error, b, h) v e vb c = log_output s b h v e vb (ground (arith, c))
  after_write_to_lem s (buffer_size_maximum, b, h) v e vb c = absurd (ground (arith, c))

  -- `handleWrite` moves pending bytes to the kernel, in order.
  pub handle_write_lem : (s : World) → IsSound s → Keeps s (handle_write k user s)
  unfolding handle_write
  handle_write_lem s v =
      let w = Write.write_to_lem k (fd s) (readable_bytes s.conn.output) s.history v.output in
      after_write_to_lem s
        (write_to k (fd s) s.conn.output (readable_bytes s.conn.output) s.history) v w.0 w.1 w.2

  announce_close_lem : (s : World) → IsSound s → Keeps s (announce_close k user s)
  announce_close_lem s v = choose (is_connected s.conn.status)
    where
      choose : (b : Bool) → Keeps s (if b then call k user on_close s.conn.closecb s else some s)
      choose true = then_call k user polite on_close s.conn.closecb s s refl refl v
      choose false = settle s s refl v refl

  pub handle_close_lem : (s : World) → IsSound s → Keeps s (handle_close k user s)
  unfolding handle_close
  handle_close_lem s v = after s (log_at debug s) _ refl (logged_stream s) (
      Keeps-bind (log_at debug s) (announce_close k user (log_at debug s))
        (λ t.
          call k user on_remove (set_status disconnecting t).conn.rmcb (set_status disconnecting t))
        (announce_close_lem (log_at debug s) (logged s v))
        (λ t w.
          then_call k user polite on_remove t.conn.rmcb t (set_status disconnecting t) refl refl
            (with_status t disconnecting w)))

  after_read_lem :
      (s : World) (r : Ssize × Buffer × History)
      → IsSound s
      → sent_on (fd s) r.2 ≡ sent_on (fd s) s.history
      → Valid.IsValid r.1
      → Keeps s (after_read_from k user s r)
  unfolding sent_on
  after_read_lem s (count m, b, h) v e vb =
      let t = with_input s b h in
      let w : IsSound t = record { input = vb; output = v.output; armed = v.armed } in
      let same : stream t ≡ stream s = ap (λ z. z ++ unread s.conn.output) e in
      choose (ltb 0 m) (then_call k user polite on_message s.conn.macb s t refl same w)
        (after s t _ refl same (handle_close_lem t w))
    where
      choose :
          (c : Bool) {x y : Option World} → Keeps s x → Keeps s y → Keeps s (if c then x else y)
      choose true p q = p
      choose false p q = q
  after_read_lem s (sys_error, b, h) v e vb =
      settle s _ refl (record { input = vb; output = v.output; armed = v.armed })
        (ap (λ z. z ++ unread s.conn.output) e)
  after_read_lem s (buffer_size_maximum, b, h) v e vb =
      settle s _ refl (record { input = vb; output = v.output; armed = v.armed })
        (ap (λ z. z ++ unread s.conn.output) e)

  -- `handleRead` returns: the read loop ends, and no branch faults.
  pub handle_read_lem : (s : World) → IsSound s → Keeps s (handle_read k user s)
  unfolding handle_read sent_on
  handle_read_lem s v =
      go (read_from k (fd s) s.conn.input h) (Read.read_from-Reads k (fd s) h v.input)
    where
      h : History
      h = log debug ∷ s.history

      go :
          (o : Outcome)
          → Read.Reads (fd s) s.conn.input h o
          → Keeps s (o >>= λ r. after_read_from k user s r)
      go none r = absurd r
      go (some (n, b, g)) (xs, e1, e2, vb, c, o) =
          after_read_lem s (n, b, g) v (sent_on-OnlyReads (fd s) o) vb

  pub connect_destroyed_lem : (s : World) → IsSound s → Keeps s (connect_destroyed k user s)
  unfolding connect_destroyed remove_from_loop sent_on
  connect_destroyed_lem s v = after s (log_at debug s) _ refl (logged_stream s) (
      Keeps-bind (log_at debug s) (announce_close k user (log_at debug s))
        (λ t. some (set_status disconnected (release k t)))
        (announce_close_lem (log_at debug s) (logged s v))
        (λ t w.
          settle t _ refl (record { input = w.input; output = w.output; armed = w.armed })
            (ground arith)))

  pub connect_established_lem : (s : World) → IsSound s → Keeps s (connect_established k user s)
  unfolding connect_established add_to_loop like_reading sent_on
  connect_established_lem s v =
      then_call k user polite on_connect s.conn.conncb s _ refl (ground arith)
        (record { input = v.input; output = v.output; armed = v.armed })
