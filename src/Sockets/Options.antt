-- ===== src/Sockets/Options.antt =====
-- socket.cpp.
use pqnet.Common.{ℕ, ◌+◌, ◌-◌, Bool, true, false, ◌==◌, if◌then◌else◌}
use pqnet.Sockets.Api.{
  minus_one, Opt, so_error, so_reuseaddr, so_reuseport, so_keepalive, tcp_nodelay, has_nonblock,
  Api,
}

abbrev pub true_int : ℕ
true_int = 1

abbrev pub false_int : ℕ
false_int = 0

abbrev pub unknown : ℕ
unknown = minus_one

-- `int optval = flag;`
abbrev pub of_flag : Bool → ℕ
of_flag true = 1
of_flag false = 0

-- `flags | O_NONBLOCK` and `flags & ~O_NONBLOCK`
abbrev pub with_nonblock : Bool → ℕ → ℕ
with_nonblock true flags = if has_nonblock flags then flags else flags + 2048
with_nonblock false flags = if has_nonblock flags then flags - 2048 else flags

module _ {S : Type 0} (api : Api S) where
  unfoldable pub new_socket : S → ℕ × S
  new_socket s = api.socket s

  unfoldable pub shutdown_write : ℕ → S → ℕ × S
  shutdown_write sockfd s = api.shutdown sockfd s

  unfoldable pub get_socket_error : ℕ → S → ℕ × S
  get_socket_error sockfd s =
      let ((rc, optval), s1) = api.getsockopt sockfd so_error s in
      if rc == minus_one then (api.errno s1, s1) else (optval, s1)

  unfoldable pub is_non_block : ℕ → S → ℕ × S
  is_non_block sockfd s =
      let flags = api.get_flags sockfd s in
      if flags == minus_one
      then (unknown, s)
      else if has_nonblock flags
      then (true_int, s)
      else (false_int, s)

  -- `if (getsockopt(…) == -1) return UNKNOWN; return optval;`
  abbrev pub option_of : Opt → ℕ → S → ℕ × S
  option_of o sockfd s =
      let ((rc, optval), s1) = api.getsockopt sockfd o s in
      if rc == minus_one then (unknown, s1) else (optval, s1)

  unfoldable pub is_reuse_addr : ℕ → S → ℕ × S
  is_reuse_addr = option_of so_reuseaddr

  unfoldable pub is_reuse_port : ℕ → S → ℕ × S
  is_reuse_port = option_of so_reuseport

  unfoldable pub is_no_delay : ℕ → S → ℕ × S
  is_no_delay = option_of tcp_nodelay

  unfoldable pub is_keep_alive : ℕ → S → ℕ × S
  is_keep_alive = option_of so_keepalive

  -- `if (… == -1) return false; return true;`
  abbrev pub succeeds : ℕ × S → Bool × S
  succeeds (rc, s) = if rc == minus_one then (false, s) else (true, s)

  unfoldable pub set_non_block : ℕ → Bool → S → Bool × S
  set_non_block sockfd flag s =
      let flags = api.get_flags sockfd s in
      if flags == minus_one
      then (false, s)
      else succeeds (api.set_flags sockfd (with_nonblock flag flags) s)

  unfoldable pub set_reuse_addr : ℕ → Bool → S → Bool × S
  set_reuse_addr sockfd flag s = succeeds (api.setsockopt sockfd so_reuseaddr (of_flag flag) s)

  unfoldable pub set_reuse_port : ℕ → Bool → S → Bool × S
  set_reuse_port sockfd flag s = succeeds (api.setsockopt sockfd so_reuseport (of_flag flag) s)

  unfoldable pub set_no_delay : ℕ → Bool → S → Bool × S
  set_no_delay sockfd flag s = succeeds (api.setsockopt sockfd tcp_nodelay (of_flag flag) s)

  unfoldable pub set_keep_alive : ℕ → Bool → S → Bool × S
  set_keep_alive sockfd flag s = succeeds (api.setsockopt sockfd so_keepalive (of_flag flag) s)
