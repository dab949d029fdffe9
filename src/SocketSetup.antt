-- ===== src/SocketSetup.antt =====
-- lib/socketSetup/src/socket_setup.c: the sequences of system calls that set up the sockets.
-- The system is a parameter: its answer to a call after the calls before it, `none` for a failure.
pub mod AvailablePort
pub mod Endpoints
pub mod Launch
pub mod Opened
use shelter_server.Prelude.{
  ℕ, ℤ, Bytes, take, Bool, true, false, Option, none, some, List, ◌∷◌, if◌then◌else◌,
}
use shelter_server.UdpClient.Connection.{uint16}

pub data Domain : Type 0 where
  af_inet af_inet6 af_unix : Domain

pub data Kind : Type 0 where
  sock_stream sock_dgram : Kind

pub data OptionName : Type 0 where
  so_reuseaddr so_reuseport : OptionName

-- A local address: any address of the host at a port, or a path.
pub data Address : Type 0 where
  any_at : ℕ → Address
  at_path : Bytes → Address

pub data Call : Type 0 where
  socket : Domain → Kind → Call
  setsockopt : ℕ → OptionName → Bool → Call
  bind : ℕ → Address → Call
  getsockname : ℕ → Call
  inet_ntop : Call
  listen : ℕ → ℕ → Call
  close : ℕ → Call
  unlink : Bytes → Call
  open_fifo : Bytes → Call

-- A function returns, or ends the process by exit(EXIT_FAILURE), after these calls, the latest first.
pub data Made (A : Type 0) : Type 0 where
  made : A → List Call → Made A
  exited : List Call → Made A

abbrev pub Setup : Type 0 → Type 0
Setup A = List Call → Made A

abbrev pub bind_made : {A B : Type 0} → Made A → (A → Setup B) → Made B
bind_made (made a calls) f = f a calls
bind_made (exited calls) f = exited calls

infixl 5 ◌>>=◌ ◌>>◌
abbrev pub ◌>>=◌ : {A B : Type 0} → Setup A → (A → Setup B) → Setup B
◌>>=◌ m f calls = bind_made (m calls) f

abbrev pub ◌>>◌ : {B : Type 0} → Setup (Unit {0}) → Setup B → Setup B
m >> k = m >>= λ _. k

abbrev pub return : {A : Type 0} → A → Setup A
return a calls = made a calls

module _ (answer : List Call → Call → Option ℕ) where
  abbrev pub or_exit : {A : Type 0} → Option A → Setup A
  or_exit none calls = exited calls
  or_exit (some a) calls = made a calls

  -- A call whose failure ends the process.
  abbrev pub required : Call → Setup ℕ
  required c calls = or_exit (answer calls c) (c ∷ calls)

  -- A call whose result is not looked at.
  abbrev pub attempted : Call → Setup (Unit {0})
  attempted c calls = made tt (c ∷ calls)

  -- set_tcp_ipv4_socket and set_tcp_ipv6_socket, by the domain.
  unfoldable pub set_tcp_family_socket : Domain → ℤ → ℕ → Setup ℕ
  unfolding uint16
  set_tcp_family_socket domain port max_connections = required (socket domain sock_stream) >>= λ fd.
      attempted (setsockopt fd so_reuseport true)
      >> (required (bind fd (any_at (uint16 port))) >>= λ _.
          required (listen fd max_connections) >>= λ _. return fd)

  unfoldable pub set_tcp_ipv4_socket : ℤ → ℕ → Setup ℕ
  unfolding set_tcp_family_socket
  set_tcp_ipv4_socket port max_connections = set_tcp_family_socket af_inet port max_connections

  unfoldable pub set_tcp_ipv6_socket : ℤ → ℕ → Setup ℕ
  unfolding set_tcp_family_socket
  set_tcp_ipv6_socket port max_connections = set_tcp_family_socket af_inet6 port max_connections

  -- set_udp_ipv4_socket, set_udp_ipv6_socket and set_udp_socket, by the domain and by the value of
  -- the option.
  unfoldable pub set_udp_family_socket : Domain → Bool → ℤ → Setup ℕ
  unfolding uint16
  set_udp_family_socket domain option port = required (socket domain sock_dgram) >>= λ fd.
      required (setsockopt fd so_reuseport option) >>= λ _.
      required (bind fd (any_at (uint16 port))) >>= λ _. return fd

  unfoldable pub set_udp_ipv4_socket : ℤ → Setup ℕ
  unfolding set_udp_family_socket
  set_udp_ipv4_socket port = set_udp_family_socket af_inet true port

  unfoldable pub set_udp_ipv6_socket : ℤ → Setup ℕ
  unfolding set_udp_family_socket
  set_udp_ipv6_socket port = set_udp_family_socket af_inet6 true port

  unfoldable pub set_udp_socket : ℤ → Setup ℕ
  unfolding set_udp_family_socket
  set_udp_socket port = set_udp_family_socket af_inet6 false port

  unfoldable pub set_tcp_socket : ℤ → ℕ → Setup ℕ
  unfolding uint16
  set_tcp_socket port max_connections = required (socket af_inet6 sock_stream) >>= λ fd.
      required (setsockopt fd so_reuseaddr true) >>= λ _.
      required (bind fd (any_at (uint16 port))) >>= λ _. required (getsockname fd) >>= λ _.
      required inet_ntop >>= λ _. required (listen fd max_connections) >>= λ _. return fd

  -- The array for the path has 108 bytes, the last one a zero.
  unfoldable pub set_unix_socket : Bytes → ℕ → Bool → Setup ℕ
  set_unix_socket path max_connections false = required (socket af_unix sock_dgram) >>= λ fd.
      required (bind fd (at_path (take 107 path))) >>= λ _. return fd
  set_unix_socket path max_connections true = required (socket af_unix sock_stream) >>= λ fd.
      required (bind fd (at_path (take 107 path))) >>= λ _.
      required (listen fd max_connections) >>= λ _. return fd
