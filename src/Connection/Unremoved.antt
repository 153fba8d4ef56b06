-- ===== src/Connection/Unremoved.antt =====
-- A connection without a remove callback, as that of a client.
use pqnet.Common.{arith, Bool, true, false, if◌then◌else◌, ℕ, ◌≡◌, ◌∙◌, Option, none, some}
use pqnet.Kernel.{Kernel, Slot, on_close, on_remove, debug}
use pqnet.Connection.Defs.{
  World, User, disconnecting, call, announce_close, set_status, handle_close, connect_established,
  log_at, is_connected,
}
use pqnet.Connection.Closing.{bind_inv}

-- No callback gives a connection a remove callback, or takes it.
abbrev pub KeepsRemove : User → Type 0
KeepsRemove user = (cb : ℕ) (w v : World) → user cb w ≡ some v → v.conn.rmcb ≡ w.conn.rmcb

module _ (k : Kernel) (user : User) (keeps : KeepsRemove user) where
  call_keeps :
      (slot : Slot) (cb : Option ℕ) (w v : World)
      → call k user slot cb w ≡ some v
      → v.conn.rmcb ≡ w.conn.rmcb
  call_keeps slot none w v e = ground arith
  call_keeps slot (some cb) w v e = keeps cb _ v e

  pub established_keeps :
      (w v : World) → connect_established k user w ≡ some v → v.conn.rmcb ≡ w.conn.rmcb
  unfolding connect_established
  established_keeps w v e = call_keeps _ _ _ v e

  announced_keeps : (w v : World) → announce_close k user w ≡ some v → v.conn.rmcb ≡ w.conn.rmcb
  announced_keeps w v e = one_way (is_connected w.conn.status) e
    where
      one_way :
          (b : Bool)
          → (if b then call k user on_close w.conn.closecb w else some w) ≡ some v
          → v.conn.rmcb ≡ w.conn.rmcb
      one_way true e = call_keeps on_close w.conn.closecb w v e
      one_way false e = ground arith

  call_empty :
      (slot : Slot) (cb : Option ℕ) (w v : World)
      → cb ≡ none
      → call k user slot cb w ≡ some v
      → v.conn.status ≡ w.conn.status
  call_empty slot none w v n e = ground arith
  call_empty slot (some cb) w v n e = absurd (cc)

  -- Where the peer closes, it is left in DISCONNECTING.
  pub unremoved :
      (w v : World)
      → w.conn.rmcb ≡ none
      → handle_close k user w ≡ some v
      → v.conn.status ≡ disconnecting
  unfolding handle_close
  unremoved w v r e =
      let (a, p, q) = bind_inv (announce_close k user (log_at debug w)) _ e in
      call_empty on_remove a.conn.rmcb (set_status disconnecting a) v
        (announced_keeps (log_at debug w) a p ∙ r) q
