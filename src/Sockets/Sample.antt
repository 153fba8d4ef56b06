-- ===== src/Sockets/Sample.antt =====
-- A kernel with the flags and options of each descriptor, in which no call fails, and which does as
-- `Documented` has it.
use pqnet.Common.{
  Bool, Option, none, some, ℕ, ◌≡◌, ◌≢◌, refl, sym, ap, ◌∙◌, true, false, ◌&&◌, ◌==◌, if◌then◌else◌,
  Bool-cases, inl, inr, arith,
}
use pqnet.Sockets.Api.{
  minus_one, Opt, so_error, so_reuseaddr, so_reuseport, so_keepalive, tcp_nodelay, has_nonblock,
  Api, Documented, Passive,
}
use pqnet.Sockets.Address.{SockAddr}

pub record Options : Type 0 where
  pub flags : ℕ → ℕ
  pub options : Opt → ℕ → ℕ
  pub names : ℕ → Option SockAddr
  pub passive : ℕ → Bool

abbrev code : Opt → ℕ
code so_error = 0
code so_reuseaddr = 1
code so_reuseport = 2
code so_keepalive = 3
code tcp_nodelay = 4

abbrev of_code : ℕ → Opt
of_code n =
    if n == 0
    then so_error
    else if n == 1
    then so_reuseaddr
    else if n == 2
    then so_reuseport
    else if n == 3
    then so_keepalive
    else tcp_nodelay

of_code-code : (o : Opt) → of_code (code o) ≡ o
of_code-code so_error = refl
of_code-code so_reuseaddr = refl
of_code-code so_reuseport = refl
of_code-code so_keepalive = refl
of_code-code tcp_nodelay = refl

code-injective : (o p : Opt) → code o ≡ code p → o ≡ p
code-injective o p e = sym (of_code-code o) ∙ ap of_code e ∙ of_code-code p

abbrev only_nonblock : ℕ → ℕ
only_nonblock flags = if has_nonblock flags then 2048 else 0

-- Of the flags, O_NONBLOCK alone is kept.
abbrev pub sample : Api Options
sample = record {
  socket = λ s. (3, s);
  shutdown = λ fd s. (0, s);
  get_flags = λ fd s. s.flags fd;
  set_flags = λ fd flags s.
      (0, record s { flags = λ e. if fd == e then only_nonblock flags else s.flags e });
  getsockopt = λ fd o s. ((0, s.options o fd), s);
  setsockopt = λ fd o v s.
      (0, record s { options = λ p e. if code o == code p && fd == e then v else s.options p e });
  errno = λ s. 0;
  bind = λ fd a s. (0, record s { names = λ e. if fd == e then some a else s.names e });
  listen = λ fd backlog s. (0, record s { passive = λ e. if fd == e then true else s.passive e });
  connect = λ fd a s. (0, s);
}

abbrev pub unset : Options
unset = record { flags = λ e. 0; options = λ o e. 0; names = λ e. none; passive = λ e. false }

self : (n : ℕ) → (n == n) ≡ true
self n = ground arith

apart : (o p : Opt) → o ≢ p → (code o == code p) ≡ false
apart o p n = elim (Bool-cases (code o == code p)) [
  | inl e ↦ absurd (n (code-injective o p (ground (arith, e))))
  | inr e ↦ e
]

kept :
    (flags : ℕ)
    → (only_nonblock flags ≢ minus_one) × (has_nonblock (only_nonblock flags) ≡ has_nonblock flags)
kept flags = elim (Bool-cases (has_nonblock flags)) [
  | inl e ↦ rw e ((λ q. absurd (omega arith)), refl)
  | inr e ↦ rw e ((λ q. absurd (omega arith)), refl)
]

pub sample-Documented : Documented sample
sample-Documented = record {
  flags_set = λ fd flags s n. rw (self fd) (kept flags);
  flags_apart = λ fd flags o s. refl;
  opt_set = λ fd v o s le n. rw (self (code o)) (rw (self fd) refl);
  opt_apart = λ fd v o p s n. rw (apart o p n) refl;
  opt-flags = λ fd v o s. refl;
  bind_apart = λ fd a s. (refl, λ o n. refl);
  listen_apart = λ fd backlog s. (refl, λ o n. refl);
}

pub sample-Passive : Passive sample
sample-Passive = record {
  bound = λ fd s. s.names fd;
  listens = λ fd s. s.passive fd;
  bind_binds = λ fd a s n. rw (self fd) refl;
  listen_listens = λ fd backlog s n. rw (self fd) refl;
  listen_bound = λ fd backlog s. refl;
}
