-- ===== src/SocketSetup/Endpoints.antt =====
-- The sockets that the functions of lib/socketSetup/src/socket_setup.c set up.
use shelter_server.Prelude.{
  ℕ, ℤ, ◌≡◌, refl, Bytes, take, Bool, true, false, Option, none, some, List, ◌∷◌, [], ◌==◌,
  if◌then◌else◌, arith,
}
use shelter_server.UdpClient.Connection.{uint16}
use shelter_server.SocketSetup.{
  Domain, af_inet, af_inet6, af_unix, Kind, sock_stream, sock_dgram, Address, any_at, at_path,
  OptionName, so_reuseport, so_reuseaddr, Call, socket, setsockopt, bind, getsockname, inet_ntop,
  listen, close, unlink, open_fifo, Made, made, exited, Setup, required, ◌>>=◌,
  set_tcp_family_socket, set_tcp_ipv4_socket, set_tcp_ipv6_socket, set_udp_family_socket,
  set_udp_ipv4_socket, set_udp_ipv6_socket, set_tcp_socket, set_udp_socket, set_unix_socket,
}

-- A socket of the system.
pub record Endpoint : Type 0 where
  pub domain : Domain
  pub kind : Kind
  pub address : Option Address
  pub backlog : Option ℕ

abbrev pub bound : Option Endpoint → Address → Option Endpoint
bound none a = none
bound (some e) a = some (record e { address = some a })

abbrev pub listening : Option Endpoint → ℕ → Option Endpoint
listening none n = none
listening (some e) n = some (record e { backlog = some n })

-- What a call that succeeds does to the socket of this descriptor.
abbrev pub effect : ℕ → Call → ℕ → Option Endpoint → Option Endpoint
effect fd (socket domain kind) result e =
    if result == fd
    then some (record { domain = domain; kind = kind; address = none; backlog = none })
    else e
effect fd (setsockopt target name value) result e = e
effect fd (bind target address) result e = if target == fd then bound e address else e
effect fd (getsockname target) result e = e
effect fd inet_ntop result e = e
effect fd (listen target backlog) result e = if target == fd then listening e backlog else e
effect fd (close target) result e = if target == fd then none else e
effect fd (unlink path) result e = e
effect fd (open_fifo path) result e = e

-- A TCP socket of the domain that waits for connections, and a UDP socket of the domain.
abbrev pub tcp_endpoint : Domain → ℤ → ℕ → Endpoint
tcp_endpoint domain port n = record {
  domain = domain;
  kind = sock_stream;
  address = some (any_at (uint16 port));
  backlog = some n;
}

abbrev pub udp_endpoint : Domain → ℤ → Endpoint
udp_endpoint domain port = record {
  domain = domain;
  kind = sock_dgram;
  address = some (any_at (uint16 port));
  backlog = none;
}

-- A Unix socket at the path.
abbrev pub unix_endpoint : Bytes → ℕ → Bool → Endpoint
unix_endpoint path n true = record {
  domain = af_unix;
  kind = sock_stream;
  address = some (at_path (take 107 path));
  backlog = some n;
}
unix_endpoint path n false = record {
  domain = af_unix;
  kind = sock_dgram;
  address = some (at_path (take 107 path));
  backlog = none;
}

-- The calls whose failure a function may ignore: none, or those of setsockopt.
abbrev pub no_call : Call → Bool
no_call c = false

abbrev pub is_option : Call → Bool
is_option (socket domain kind) = false
is_option (setsockopt fd name value) = true
is_option (bind fd address) = false
is_option (getsockname fd) = false
is_option inet_ntop = false
is_option (listen fd backlog) = false
is_option (close fd) = false
is_option (unlink path) = false
is_option (open_fifo path) = false

module _ (answer : List Call → Call → Option ℕ) where
  abbrev pub after_call : ℕ → Call → Option ℕ → Option Endpoint → Option Endpoint
  after_call fd c none e = e
  after_call fd c (some result) e = effect fd c result e

  -- The socket of this descriptor after the calls, of which those that fail do nothing.
  abbrev pub endpoint : ℕ → List Call → Option Endpoint
  endpoint fd [] = none
  endpoint fd (c ∷ calls) = after_call fd c (answer calls c) (endpoint fd calls)

  -- The calls made since these ones, none of which failed but those that may be ignored.
  pub data Clean (ignored : Call → Bool) (before : List Call) : List Call → Type 0 where
    nothing_yet : Clean ignored before before
    succeeded :
        (c : Call) (n : ℕ) (calls : List Call)
        → answer calls c ≡ some n
        → Clean ignored before calls
        → Clean ignored before (c ∷ calls)
    went_on :
        (c : Call) (calls : List Call)
        → ignored c ≡ true
        → Clean ignored before calls
        → Clean ignored before (c ∷ calls)

  -- The last call is the first that failed of those that may not be ignored.
  abbrev pub FirstFailed : (Call → Bool) → List Call → List Call → Type 0
  FirstFailed ignored before [] = ⊥
  FirstFailed ignored before (c ∷ calls) =
      (answer calls c ≡ none) × (ignored c ≡ false) × Clean ignored before calls

  -- The descriptor that is returned is that of such a socket, and no call has failed; and an exit
  -- follows the first call that failed.
  abbrev pub SetsUp : (Call → Bool) → List Call → Endpoint → Made ℕ → Type 0
  SetsUp ignored before e (made fd calls) =
      (endpoint fd calls ≡ some e) × Clean ignored before calls
  SetsUp ignored before e (exited calls) = FirstFailed ignored before calls

  SetsUp-required :
      (ignored : Call → Bool) (before : List Call) (e : Endpoint) (c : Call) (k : ℕ → Setup ℕ)
      (calls : List Call) (o : Option ℕ)
      → answer calls c ≡ o
      → ignored c ≡ false
      → Clean ignored before calls
      → ((n : ℕ)
          → answer calls c ≡ some n
          → Clean ignored before (c ∷ calls)
          → SetsUp ignored before e (k n (c ∷ calls)))
      → SetsUp ignored before e ((required answer c >>= k) calls)
  SetsUp-required ignored before e c k calls none h i clean next = rw h (h, i, clean)
  SetsUp-required ignored before e c k calls (some n) h i clean next =
      rw h (next n h (succeeded c n calls h clean))

  pub same_fd : (fd : ℕ) → (fd == fd) ≡ true
  same_fd fd = ground arith

  option_ignored :
      (fd target : ℕ) (name : OptionName) (value : Bool) (o : Option ℕ) (e : Option Endpoint)
      → after_call fd (setsockopt target name value) o e ≡ e
  option_ignored fd target name value none e = refl
  option_ignored fd target name value (some n) e = refl

  tcp_family-SetsUp :
      (domain : Domain) (port : ℤ) (n : ℕ) (calls : List Call)
      → SetsUp is_option calls
          (tcp_endpoint domain port n)
          (set_tcp_family_socket answer domain port n calls)
  unfolding set_tcp_family_socket
  tcp_family-SetsUp domain port n calls =
      SetsUp-required is_option calls _ (socket domain sock_stream) _ calls _ refl refl nothing_yet
        λ fd h1 c1.
          SetsUp-required is_option calls _ (bind fd (any_at (uint16 port))) _ _ _ refl refl
            (went_on _ _ refl c1)
            λ a h2 c2. SetsUp-required is_option calls _ (listen fd n) _ _ _ refl refl c2 λ b h3 c3.
              (rw (h3, h2, h1, same_fd fd, option_ignored fd fd so_reuseport true) refl, c3)

  udp_family-SetsUp :
      (domain : Domain) (option : Bool) (port : ℤ) (calls : List Call)
      → SetsUp no_call calls
          (udp_endpoint domain port)
          (set_udp_family_socket answer domain option port calls)
  unfolding set_udp_family_socket
  udp_family-SetsUp domain option port calls =
      SetsUp-required no_call calls _ (socket domain sock_dgram) _ calls _ refl refl nothing_yet
        λ fd h1 c1.
          SetsUp-required no_call calls _ (setsockopt fd so_reuseport option) _ _ _ refl refl c1
            λ a h2 c2.
              SetsUp-required no_call calls _ (bind fd (any_at (uint16 port))) _ _ _ refl refl c2
                λ b h3 c3. (rw (h3, h2, h1, same_fd fd) refl, c3)

  tcp-SetsUp :
      (port : ℤ) (n : ℕ) (calls : List Call)
      → SetsUp no_call calls (tcp_endpoint af_inet6 port n) (set_tcp_socket answer port n calls)
  unfolding set_tcp_socket
  tcp-SetsUp port n calls =
      SetsUp-required no_call calls _ (socket af_inet6 sock_stream) _ calls _ refl refl nothing_yet
        λ fd h1 c1.
          SetsUp-required no_call calls _ (setsockopt fd so_reuseaddr true) _ _ _ refl refl c1
            λ a h2 c2.
              SetsUp-required no_call calls _ (bind fd (any_at (uint16 port))) _ _ _ refl refl c2
                λ b h3 c3.
                  SetsUp-required no_call calls _ (getsockname fd) _ _ _ refl refl c3 λ d h4 c4.
                    SetsUp-required no_call calls _ inet_ntop _ _ _ refl refl c4 λ e h5 c5.
                      SetsUp-required no_call calls _ (listen fd n) _ _ _ refl refl c5
                        λ f h6 c6. (rw (h6, h5, h4, h3, h2, h1, same_fd fd) refl, c6)

  unix-SetsUp :
      (path : Bytes) (n : ℕ) (connection_oriented : Bool) (calls : List Call)
      → SetsUp no_call calls
          (unix_endpoint path n connection_oriented)
          (set_unix_socket answer path n connection_oriented calls)
  unfolding set_unix_socket
  unix-SetsUp path n false calls =
      SetsUp-required no_call calls _ (socket af_unix sock_dgram) _ calls _ refl refl nothing_yet
        λ fd h1 c1.
          SetsUp-required no_call calls _ (bind fd (at_path (take 107 path))) _ _ _ refl refl c1
            λ a h2 c2. (rw (h2, h1, same_fd fd) refl, c2)
  unix-SetsUp path n true calls =
      SetsUp-required no_call calls _ (socket af_unix sock_stream) _ calls _ refl refl nothing_yet
        λ fd h1 c1.
          SetsUp-required no_call calls _ (bind fd (at_path (take 107 path))) _ _ _ refl refl c1
            λ a h2 c2.
              SetsUp-required no_call calls _ (listen fd n) _ _ _ refl refl c2
                λ b h3 c3. (rw (h3, h2, h1, same_fd fd) refl, c3)

  -- Whatever the system answers and was called for before, each of the seven functions either
  -- returns the descriptor of a socket of the right domain and kind, bound to any address at the port
  -- modulo 2^16 or to the first 107 bytes of the path, with the given queue if it is one for
  -- connections, where none of its calls has failed; or it ends the process directly after the first
  -- of its calls that failed. Only set_tcp_ipv4_socket and set_tcp_ipv6_socket go on after a setsockopt
  -- that failed.
  pub sockets-SetsUp :
      (port : ℤ) (n : ℕ) (path : Bytes) (connection_oriented : Bool) (calls : List Call)
      → SetsUp is_option calls
          (tcp_endpoint af_inet port n)
          (set_tcp_ipv4_socket answer port n calls)
        × SetsUp is_option calls
            (tcp_endpoint af_inet6 port n)
            (set_tcp_ipv6_socket answer port n calls)
        × SetsUp no_call calls (udp_endpoint af_inet port) (set_udp_ipv4_socket answer port calls)
        × SetsUp no_call calls (udp_endpoint af_inet6 port) (set_udp_ipv6_socket answer port calls)
        × SetsUp no_call calls
            (unix_endpoint path n connection_oriented)
            (set_unix_socket answer path n connection_oriented calls)
        × SetsUp no_call calls (tcp_endpoint af_inet6 port n) (set_tcp_socket answer port n calls)
        × SetsUp no_call calls (udp_endpoint af_inet6 port) (set_udp_socket answer port calls)
  unfolding set_tcp_ipv4_socket set_tcp_ipv6_socket set_udp_ipv4_socket set_udp_ipv6_socket
      set_udp_socket
  sockets-SetsUp port n path connection_oriented calls = (
    tcp_family-SetsUp af_inet port n calls,
    tcp_family-SetsUp af_inet6 port n calls,
    udp_family-SetsUp af_inet true port calls,
    udp_family-SetsUp af_inet6 true port calls,
    unix-SetsUp path n connection_oriented calls,
    tcp-SetsUp port n calls,
    udp_family-SetsUp af_inet6 false port calls,
  )
