-- ===== src/Connection/Keeps.antt =====
-- Steps of a connection one after another.
use pqnet.Common.{ℕ, ◌≡◌, refl, sym, ◌∙◌, Option, some, [], append-nil, ◌>>=◌}
use pqnet.Kernel.{Kernel, sent_on, Slot, debug}
use pqnet.Connection.Defs.{World, User, Status, call, log_at, set_status}
use pqnet.Connection.Sound.{
  IsSound, IsPolite, Extends, Extends-trans, Extends-join, call_lem, stream, fd,
}

-- The step returns, and extends the stream of a sound connection.
abbrev pub Keeps : World → Option World → Type 0
Keeps s r = (s' : World) × (r ≡ some s') × Extends s [] s'

pub settle : (s t : World) → fd t ≡ fd s → IsSound t → stream t ≡ stream s → Keeps s (some t)
settle s t f v e = (t, refl, (f, v, [], e ∙ sym (append-nil _)))

pub after :
    (s t : World) (r : Option World) → fd t ≡ fd s → stream t ≡ stream s → Keeps t r → Keeps s r
after s t r f e (u, eq, x) = (u, eq, Extends-trans s t u [] f (e ∙ sym (append-nil _)) x)

pub with_status : (s : World) (st : Status) → IsSound s → IsSound (set_status st s)
with_status s st v = record { input = v.input; output = v.output; armed = v.armed }

pub Keeps-bind :
    (s : World) (r : Option World) (f : World → Option World)
    → Keeps s r
    → ((t : World) → IsSound t → Keeps t (f t))
    → Keeps s (r >>= f)
Keeps-bind s r f (t, e, x) next =
    let (u, e', y) = next t x.1 in (u, rw e e', Extends-join s t u x y)

pub logged : (s : World) → IsSound s → IsSound (log_at debug s)
unfolding sent_on
logged s v = record { input = v.input; output = v.output; armed = v.armed }

pub logged_stream : (s : World) → stream (log_at debug s) ≡ stream s
unfolding sent_on
logged_stream s = refl

module _ (k : Kernel) (user : User) (polite : IsPolite user) where
  pub then_call :
      (slot : Slot) (cb : Option ℕ) (s t : World)
      → fd t ≡ fd s
      → stream t ≡ stream s
      → IsSound t
      → Keeps s (call k user slot cb t)
  then_call slot cb s t f e v = after s t _ f e (call_lem k user slot cb t polite v)
