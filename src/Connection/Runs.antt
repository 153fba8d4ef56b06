-- ===== src/Connection/Runs.antt =====
-- Sequences of steps of one connection.
use pqnet.Common.{◌≤◌, ◌≡◌, sym, ◌∙◌, ◌≢◌, some, [], arith}
use mathlib.Core.Path.{subst}
use pqnet.Kernel.{Kernel}
use pqnet.Connection.Defs.{World, User}
use pqnet.Connection.Sound.{IsSound, IsPolite, Extends, Extends-refl, Extends-join}
use pqnet.Connection.Steps.{Op, establishes, step}
use pqnet.Connection.Invariant.{IsFitting, step-IsSound}
use pqnet.Connection.Closing.{IsReserved, close_credit, close_credit-step}

-- Steps one after another, each with room for what it sends, and no second establishment.
pub data Run (k : Kernel) (user : User) (s : World) : World → Type 0 where
  start : Run k user s s
  next :
      {t u : World} (op : Op)
      → Run k user s t
      → op ≢ establishes
      → IsFitting op t
      → step k user op t ≡ some u
      → Run k user s u

some_injective : {A : Type 0} (a b : A) → some a ≡ some b → a ≡ b
some_injective a b e = cc

module _ (k : Kernel) (user : User) (polite : IsPolite user) (reserved : IsReserved user) where
  -- A run keeps the connection sound, on its descriptor, and takes back no byte of the stream.
  Run-IsSound : {s t : World} → IsSound s → Run k user s t → Extends s [] t
  Run-IsSound {s} v start = Extends-refl s v
  Run-IsSound {s} v (next {t} {u} op r other fits e) =
      let x = Run-IsSound v r in
      let y = step-IsSound k user op t polite x.1 fits in
      Extends-join s t u x (subst (λ w. Extends t [] w) (some_injective y.0 u (sym y.1 ∙ e)) y.2)

  -- Where the callbacks keep the connection sound, change its status nowhere, and call the close
  -- callback nowhere: after any run from a sound connection, each `send` of it with room in the output
  -- buffer and with no second establishment, the close callback has been called at most as often as
  -- before, and once more if the connection was connected; while it still is, not even that.
  pub Run-close_once : {s t : World} → IsSound s → Run k user s t → close_credit t ≤ close_credit s
  Run-close_once v start = omega arith
  Run-close_once v (next {t} {u} op r other fits e) = omega (
    arith,
    Run-close_once v r,
    close_credit-step k user reserved op t u other (Run-IsSound v r).1.input e,
  )
