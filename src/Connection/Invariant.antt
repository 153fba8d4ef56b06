-- ===== src/Connection/Invariant.antt =====
-- One invariant for all that can happen to a connection.
use pqnet.Common.{ℕ, ◌≡◌, refl, sym, ◌∙◌, ◌⊎◌, inl, inr, some, List, [], ◌++◌, append-nil, arith}
use pqnet.Kernel.{Kernel, sent_on}
use pqnet.Connection.Defs.{World, User, shutdown, shutdown_in_loop, handle_error}
use pqnet.Connection.Sound.{IsSound, IsPolite, Extends, stream, fd}
use pqnet.Connection.Keeps.{Keeps, settle}
use pqnet.Connection.Stream.{HasRoom, Refused, send_lem}
use pqnet.Connection.Handlers.{
  handle_read_lem, handle_write_lem, handle_close_lem, connect_established_lem,
  connect_destroyed_lem,
}
use pqnet.Connection.Steps.{
  Op, establishes, destroys, sends, asks_shutdown, shuts, reads, writes, closes, errs, step,
}

-- The one demand on the caller: what is sent fits behind what is pending.
abbrev pub IsFitting : Op → World → Type 0
IsFitting (sends xs) s = HasRoom s xs
IsFitting _ s = Unit {0}

send_Keeps :
    (k : Kernel) (user : User) (xs : List ℕ) (s : World)
    → IsPolite user
    → IsSound s
    → HasRoom s xs
    → Keeps s (step k user (sends xs) s)
unfolding step
send_Keeps k user xs s p v room =
    let (s', e, r) = send_lem k user s xs p v room in (s', e, either s' r)
  where
    either :
        (s' : World)
        → (Refused k s xs × (fd s' ≡ fd s) × IsSound s' × (stream s' ≡ stream s)) ⊎ Extends s xs s'
        → Extends s [] s'
    either s' (inl (_, f, w, same)) = (f, w, [], same ∙ sym (append-nil _))
    either s' (inr (f, w, more, g)) = (f, w, xs ++ more, g)

-- On a sound connection, where the callbacks keep it sound and take back nothing, every operation and
-- every handler returns, faults nowhere, keeps the connection sound, and takes back none of the bytes
-- owed to the peer; `send` does where the unread output and the bytes to send fit together into the
-- vector of the output buffer.
pub step-IsSound :
    (k : Kernel) (user : User) (op : Op) (s : World)
    → IsPolite user
    → IsSound s
    → IsFitting op s
    → (s' : World) × (step k user op s ≡ some s') × Extends s [] s'
unfolding step shutdown shutdown_in_loop handle_error sent_on
step-IsSound k user establishes s p v f = connect_established_lem k user p s v
step-IsSound k user destroys s p v f = connect_destroyed_lem k user p s v
step-IsSound k user (sends xs) s p v f = send_Keeps k user xs s p v f
step-IsSound k user asks_shutdown s p v f =
    settle s _ (ground arith)
      (record {
        input = ground (arith, v.input);
        output = ground (arith, v.output);
        armed = ground (arith, v.armed);
      })
      (ground arith)
step-IsSound k user shuts s p v f =
    settle s _ (ground arith)
      (record {
        input = ground (arith, v.input);
        output = ground (arith, v.output);
        armed = ground (arith, v.armed);
      })
      (ground arith)
step-IsSound k user reads s p v f = handle_read_lem k user p s v
step-IsSound k user writes s p v f = handle_write_lem k user p s v
step-IsSound k user closes s p v f = handle_close_lem k user p s v
step-IsSound k user errs s p v f =
    settle s _ refl (record { input = v.input; output = v.output; armed = v.armed }) refl
