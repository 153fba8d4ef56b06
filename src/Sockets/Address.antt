-- ===== src/Sockets/Address.antt =====
-- ipaddr.h and ipaddr.cpp. A `struct sockaddr_in` is its three fields, as they lie in the memory of a
-- host of either byte order; gethostbyname(3) and inet_ntop(3) are parameters.
use pqnet.Common.{
  ℕ, ◌+◌, ◌*◌, ◌^◌, ◌<◌, ◌≡◌, Option, none, some, List, [], ◌∷◌, ◌++◌, ◌==◌, if◌then◌else◌, arith,
}
use pqnet.Endian.{
  ByteOrder, little, big, h2n16, h2n32, n2h16, n2h32, of_bytes, swap_on, object_bytes, le_bytes,
  of_le_bytes,
}
use pqnet.Http.Strings.{String}
use pqnet.Http.Router.{digits}

abbrev pub af_inet : ℕ
af_inet = 2

abbrev pub inaddr_any : ℕ
inaddr_any = 0

pub record SockAddr : Type 0 where
  pub sin_family : ℕ
  pub sin_port : ℕ
  pub sin_addr : ℕ

-- What gethostbyname(3) finds: the kind of the address, and its bytes in network order.
pub record HostEnt : Type 0 where
  pub h_addrtype : ℕ
  pub h_addr : List ℕ

module _ (order : ByteOrder) where
  unfoldable pub of_port : ℕ → SockAddr
  of_port port = record {
    sin_family = af_inet;
    sin_port = h2n16 order port;
    sin_addr = h2n32 order inaddr_any;
  }

  -- The address of the entry found, read as a `struct in_addr`.
  abbrev pub host_addr : Option HostEnt → ℕ
  host_addr none = h2n32 order inaddr_any
  host_addr (some he) =
      if he.h_addrtype == af_inet then of_bytes order he.h_addr else h2n32 order inaddr_any

  unfoldable pub of_host : (String → Option HostEnt) → String → ℕ → SockAddr
  of_host gethostbyname hostname port = record {
    sin_family = af_inet;
    sin_port = h2n16 order port;
    sin_addr = host_addr (gethostbyname hostname);
  }

  unfoldable pub port : SockAddr → ℕ
  port a = n2h16 order a.sin_port

  unfoldable pub ip_int : SockAddr → ℕ
  ip_int a = n2h32 order a.sin_addr

  module _ (inet_ntop : ℕ → String) where
    unfoldable pub ip : SockAddr → String
    ip a = inet_ntop a.sin_addr

    -- `this->ip() + ':' + std::to_string(this->port())`; a port has at most five digits.
    unfoldable pub to_string : SockAddr → String
    to_string a = ip a ++ 58 ∷ digits 5 (port a)

-- An address made of a port and the name of a host for which gethostbyname finds an IPv4 address gives
-- the port back, and as a number the four bytes of the address, the first of them highest, on a host
-- of either byte order.
pub of_host_lem :
    (order : ByteOrder) (gethostbyname : String → Option HostEnt) (hostname : String)
    (p a b c d : ℕ)
    → gethostbyname hostname ≡ some (record { h_addrtype = af_inet; h_addr = a ∷ b ∷ c ∷ d ∷ [] })
    → p < 2 ^ 16
    → a < 256
    → b < 256
    → c < 256
    → d < 256
    → (port order (of_host order gethostbyname hostname p) ≡ p)
      × (ip_int order (of_host order gethostbyname hostname p)
          ≡ 2 ^ 24 * a + 2 ^ 16 * b + 2 ^ 8 * c + d)
unfolding of_host port ip_int n2h16 h2n16 n2h32 h2n32 swap_on object_bytes of_bytes le_bytes
    of_le_bytes
of_host_lem little gethostbyname hostname p a b c d e hp ha hb hc hd =
    rw e (omega arith, omega arith)
of_host_lem big gethostbyname hostname p a b c d e hp ha hb hc hd = rw e (omega arith, omega arith)
