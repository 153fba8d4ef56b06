-- ===== src/Sockets/Api.antt =====
-- The calls of the kernel that socket.cpp makes. An `int` is its bit pattern, -1 among them; the state
-- of the kernel is any type.
use pqnet.Common.{ℕ, ◌-◌, ◌/◌, ◌%◌, ◌^◌, ◌≤◌, ◌≡◌, ◌≢◌, Bool, true, ◌==◌, Option, some}
use pqnet.Sockets.Address.{SockAddr}

abbrev pub minus_one : ℕ
minus_one = 2 ^ 32 - 1

-- SOL_SOCKET's SO_ERROR, SO_REUSEADDR, SO_REUSEPORT and SO_KEEPALIVE, and IPPROTO_TCP's TCP_NODELAY
pub data Opt : Type 0 where
  so_error so_reuseaddr so_reuseport so_keepalive tcp_nodelay : Opt

-- The bit O_NONBLOCK, 04000, of the file status flags.
abbrev pub has_nonblock : ℕ → Bool
has_nonblock flags = (flags / 2048) % 2 == 1

pub record Api (S : Type 0) : Type 0 where
  -- socket(AF_INET, SOCK_STREAM, 0)
  pub socket : S → ℕ × S
  -- shutdown(fd, SHUT_WR)
  pub shutdown : ℕ → S → ℕ × S
  -- fcntl(fd, F_GETFL, 0), and fcntl(fd, F_SETFL, flags)
  pub get_flags : ℕ → S → ℕ
  pub set_flags : ℕ → ℕ → S → ℕ × S
  -- getsockopt(2), with the value it stores, and setsockopt(2) of an `int`
  pub getsockopt : ℕ → Opt → S → (ℕ × ℕ) × S
  pub setsockopt : ℕ → Opt → ℕ → S → ℕ × S
  pub errno : S → ℕ
  -- bind(2), listen(2) and connect(2)
  pub bind : ℕ → SockAddr → S → ℕ × S
  pub listen : ℕ → ℕ → S → ℕ × S
  pub connect : ℕ → SockAddr → S → ℕ × S

-- Two states in which a descriptor has the same file status flags and options.
abbrev pub Alike : {S : Type 0} → Api S → ℕ → S → S → Type 0
Alike api fd s t =
    (api.get_flags fd s ≡ api.get_flags fd t)
    × ((o : Opt) → o ≢ so_error → (api.getsockopt fd o s).0 ≡ (api.getsockopt fd o t).0)

-- What fcntl(2), socket(7) and tcp(7) document: a flag or a Boolean option is read as it was set, and
-- setting it leaves the others as they are, as bind(2) and listen(2) do.
pub record Documented {S : Type 0} (api : Api S) : Type 0 where
  pub flags_set :
      (fd flags : ℕ) (s : S)
      → (api.set_flags fd flags s).0 ≢ minus_one
      → (api.get_flags fd (api.set_flags fd flags s).1 ≢ minus_one)
        × (has_nonblock (api.get_flags fd (api.set_flags fd flags s).1) ≡ has_nonblock flags)
  pub flags_apart :
      (fd flags : ℕ) (o : Opt) (s : S)
      → (api.getsockopt fd o (api.set_flags fd flags s).1).0 ≡ (api.getsockopt fd o s).0
  pub opt_set :
      (fd v : ℕ) (o : Opt) (s : S)
      → v ≤ 1
      → (api.setsockopt fd o v s).0 ≢ minus_one
      → (api.getsockopt fd o (api.setsockopt fd o v s).1).0 ≡ (0, v)
  pub opt_apart :
      (fd v : ℕ) (o p : Opt) (s : S)
      → o ≢ p
      → (api.getsockopt fd p (api.setsockopt fd o v s).1).0 ≡ (api.getsockopt fd p s).0
  pub opt-flags :
      (fd v : ℕ) (o : Opt) (s : S)
      → api.get_flags fd (api.setsockopt fd o v s).1 ≡ api.get_flags fd s
  pub bind_apart : (fd : ℕ) (a : SockAddr) (s : S) → Alike api fd (api.bind fd a s).1 s
  pub listen_apart : (fd backlog : ℕ) (s : S) → Alike api fd (api.listen fd backlog s).1 s

-- What bind(2) and listen(2) document, in what getsockname(2) and SO_ACCEPTCONN then tell.
pub record Passive {S : Type 0} (api : Api S) : Type 0 where
  pub bound : ℕ → S → Option SockAddr
  pub listens : ℕ → S → Bool
  pub bind_binds :
      (fd : ℕ) (a : SockAddr) (s : S)
      → (api.bind fd a s).0 ≢ minus_one
      → bound fd (api.bind fd a s).1 ≡ some a
  pub listen_listens :
      (fd backlog : ℕ) (s : S)
      → (api.listen fd backlog s).0 ≢ minus_one
      → listens fd (api.listen fd backlog s).1 ≡ true
  pub listen_bound : (fd backlog : ℕ) (s : S) → bound fd (api.listen fd backlog s).1 ≡ bound fd s
