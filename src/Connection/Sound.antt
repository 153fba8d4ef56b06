-- ===== src/Connection/Sound.antt =====
-- The invariant of a connection, and what the user's callbacks are assumed to do.
use pqnet.Common.{
  ℕ, ◌≡◌, refl, sym, ap, ◌∙◌, Option, none, some, List, [], ◌++◌, append-nil, append_assoc, length,
  ltb,
}
use pqnet.Kernel.{Kernel, Slot, sent_on}
use pqnet.Buffer.{unread}
use pqnet.Buffer.Valid
use pqnet.Connection.Defs.{World, User, call}

-- The buffers are valid, and EPOLLOUT is in the interest set exactly while output is pending.
pub record IsSound (s : World) : Type 0 where
  pub input : Valid.IsValid s.conn.input
  pub output : Valid.IsValid s.conn.output
  pub armed : s.conn.tg.events.writing ≡ ltb 0 (length (unread s.conn.output))

abbrev pub fd : World → ℕ
fd s = s.conn.tg.fd

-- All the bytes that the connection owes its peer, oldest first: those that the kernel took, then
-- those that wait in the output buffer.
abbrev pub stream : World → List ℕ
stream s = sent_on (fd s) s.history ++ unread s.conn.output

-- `s'` is sound, on the same descriptor, and has added `xs` to the stream, then perhaps more.
abbrev pub Extends : World → List ℕ → World → Type 0
Extends s xs s' =
    (fd s' ≡ fd s) × IsSound s' × (extra : List ℕ) × (stream s' ≡ stream s ++ (xs ++ extra))

-- A callback returns, and uses the connection through its public operations: it leaves it sound and
-- takes nothing back from the stream.
abbrev pub IsPolite : User → Type 0
IsPolite user =
    (cb : ℕ) (s : World) → IsSound s → (s' : World) × (user cb s ≡ some s') × Extends s [] s'

pub Extends-refl : (s : World) → IsSound s → Extends s [] s
Extends-refl s v = (refl, v, [], sym (append-nil _))

-- A step that adds `xs`, then one that adds no certain bytes.
pub Extends-trans :
    (s t u : World) (xs : List ℕ)
    → fd t ≡ fd s
    → stream t ≡ stream s ++ xs
    → Extends t [] u
    → Extends s xs u
Extends-trans s t u xs e g (f, v, extra, w) =
    (f ∙ e, v, extra, w ∙ ap (λ z. z ++ extra) g ∙ append_assoc (stream s) xs extra)

pub Extends-join : (s t u : World) → Extends s [] t → Extends t [] u → Extends s [] u
Extends-join s t u (f, v, xs, g) (f', v', ys, g') =
    (f' ∙ f, v', xs ++ ys, g' ∙ ap (λ z. z ++ ys) g ∙ append_assoc (stream s) xs ys)

-- Logging and the note that a callback is called move no bytes.
pub call_lem :
    (k : Kernel) (user : User) (slot : Slot) (cb : Option ℕ) (s : World)
    → IsPolite user
    → IsSound s
    → (s' : World) × (call k user slot cb s ≡ some s') × Extends s [] s'
unfolding sent_on
call_lem k user slot none s p v = (s, refl, Extends-refl s v)
call_lem k user slot (some cb) s p v =
    p cb _ (record { input = v.input; output = v.output; armed = v.armed })
