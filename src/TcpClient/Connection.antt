-- ===== src/TcpClient/Connection.antt =====
-- The start of src/clients/tcp_client.c, up to authenticate: get_port, establish_connection and
-- do_connect.
-- getaddrinfo, socket and connect belong to the system: for an address and a port getaddrinfo is a
-- parameter, which gives the addresses to try, or `none` where it fails.
use shelter_server.Prelude.{
  ℕ, zero, suc, ◌+◌, ◌*◌, ◌/◌, ◌%◌, ◌<◌, ◌≤◌, ℤ, pos, negsuc, ◌≡◌, refl, ap, ◌∙◌, Bytes, snprintf,
  digits, decimal, atoi-decimal, take, length, Bool, true, false, Bool-cases, inl, inr, Option,
  none, some, List, [], ◌∷◌, ◌++◌, ltb, arith,
}
use shelter_server.Client.{Run, ok, exit_failure, ◌>>=◌}
use shelter_server.Client.CommandLine.{
  Argument, port_option, address_option, parse_option, parse_options, parse_command_line_args,
  Options, server_address,
}
use shelter_server.Ports.{is_default}
use shelter_server.Ports.Shared.{PortInfo, shared_tcp_port, get_port}

-- An address to try: what socket returns, `none` for -1, and whether connect succeeds.
pub record Candidate : Type 0 where
  pub socket : Option ℕ
  pub connects : Bool

-- The socket that is connected, and those that were closed on the way.
pub record Attempts : Type 0 where
  pub connected : Option ℕ
  pub closed : List ℕ

-- One address: a socket that does not connect is closed, and the next address is tried.
abbrev pub try_one : Option ℕ → Bool → Attempts → Attempts
try_one none connects rest = rest
try_one (some sfd) true rest = record { connected = some sfd; closed = [] }
try_one (some sfd) false rest = record rest { closed = sfd ∷ rest.closed }

unfoldable pub try_each : List Candidate → Attempts
try_each [] = record { connected = none; closed = [] }
try_each (c ∷ cs) = try_one c.socket c.connects (try_each cs)

abbrev pub connected_or_exit : Option ℕ → Run ℕ
connected_or_exit none = exit_failure
connected_or_exit (some sfd) = ok sfd

unfoldable pub do_connect : Option (List Candidate) → Run ℕ
unfolding try_each
do_connect none = exit_failure
do_connect (some result) = connected_or_exit (try_each result).connected

-- printf's %d.
unfoldable pub print_int : ℤ → Bytes
unfolding decimal
print_int (pos n) = decimal n
print_int (negsuc n) = 45 ∷ decimal (n + 1)

module _ (getaddrinfo : Bytes → Bytes → Option (List Candidate)) where
  -- The port is printed into a buffer of 6 bytes.
  unfoldable pub establish_connection : Bytes → ℤ → Run ℕ
  unfolding do_connect print_int
  establish_connection ip_address port =
      do_connect (getaddrinfo ip_address (snprintf 6 (print_int port)))

  unfoldable pub connect_tcp : Option PortInfo → Options → Run ℕ
  unfolding establish_connection get_port shared_tcp_port server_address
  connect_tcp shared o =
      get_port o.port (shared_tcp_port shared) >>= establish_connection (server_address o)

  unfoldable pub start_tcp : Option PortInfo → List Argument → Run ℕ
  unfolding parse_command_line_args connect_tcp
  start_tcp shared arguments = parse_command_line_args arguments >>= connect_tcp shared

-- No address of these connects.
abbrev pub AllFail : List Candidate → Type 0
AllFail [] = Unit
AllFail (c ∷ cs) = (c.connects ≡ false) × AllFail cs

-- The sockets that were made.
abbrev pub onto : Option ℕ → List ℕ → List ℕ
onto none fds = fds
onto (some sfd) fds = sfd ∷ fds

abbrev pub sockets_of : List Candidate → List ℕ
sockets_of [] = []
sockets_of (c ∷ cs) = onto c.socket (sockets_of cs)

-- The same result, with these sockets closed before.
abbrev pub after_closing : List ℕ → Attempts → Attempts
after_closing fds a = record a { closed = fds ++ a.closed }

failed_one :
    (o : Option ℕ) (fds : List ℕ) (a : Attempts)
    → try_one o false (after_closing fds a) ≡ after_closing (onto o fds) a
failed_one none fds a = refl
failed_one (some sfd) fds a = refl

-- When none of the first addresses connects, the result is that of the addresses after them, and
-- every socket that was made for the first ones is closed.
pub try_each-AllFail :
    (cs rest : List Candidate)
    → AllFail cs
    → try_each (cs ++ rest) ≡ after_closing (sockets_of cs) (try_each rest)
unfolding try_each
try_each-AllFail [] rest h = refl
try_each-AllFail (c ∷ cs) rest h =
    rw (h.0, try_each-AllFail cs rest h.1) (failed_one c.socket (sockets_of cs) (try_each rest))

-- The buffer for the port holds the text of every number below 100000.
abbrev ten_to : ℕ → ℕ
ten_to zero = 1
ten_to (suc k) = 10 * ten_to k

length-digits :
    (f k n : ℕ) (acc : Bytes)
    → n < f
    → n < ten_to (suc k)
    → length (digits f n acc) ≤ suc k + length acc
unfolding digits
length-digits zero k n acc h b = absurd (omega arith)
length-digits (suc f) zero n acc h b =
    let small : ltb n 10 ≡ true = ground arith in rw small (omega arith)
length-digits (suc f) (suc k) n acc h b = elim (Bool-cases (ltb n 10)) [
  | inl e ↦ rw e (omega arith)
  | inr e ↦
      let big : 10 ≤ n = ground arith in
      rw e (
        omega (arith, length-digits f k (n / 10) ((48 + n % 10) ∷ acc) (omega arith) (omega arith)))
]

take-short : (n : ℕ) (s : Bytes) → length s ≤ n → take n s ≡ s
take-short zero [] h = refl
take-short zero (b ∷ s) h = absurd (omega arith)
take-short (suc n) [] h = refl
take-short (suc n) (b ∷ s) h = ap (◌∷◌ b) (take-short n s (omega arith))

printed : (n : ℕ) → n < 100000 → snprintf 6 (decimal n) ≡ decimal n
unfolding decimal
printed n h =
    take-short 5 (decimal n)
      (omega (arith, length-digits (suc n) 4 n [] (omega arith) (omega arith)))

-- The addresses from the first one that connects on, or none.
abbrev pub from_first : Option ℕ → List Candidate → List Candidate
from_first none rest = []
from_first (some sfd) rest = record { socket = some sfd; connects = true } ∷ rest

tried :
    (first : Option ℕ) (cs rest : List Candidate)
    → AllFail cs
    → (try_each (cs ++ from_first first rest)).connected ≡ first
tried none cs rest h = ap (λ a. a.connected) (try_each-AllFail cs [] h) ∙ unfold try_each in refl
tried (some sfd) cs rest h =
    ap (λ a. a.connected) (try_each-AllFail cs (from_first (some sfd) rest) h)
    ∙ unfold try_each in refl

-- Started with the decimal text of a port below 100000 and with an address, the TCP client asks
-- getaddrinfo for that address and that text. Where the addresses that it gives are some that do not
-- connect, and behind them one that does or none at all, the client goes on with the socket of the
-- one that does, and else it exits.
pub start_tcp-connects :
    (getaddrinfo : Bytes → Bytes → Option (List Candidate)) (shared : Option PortInfo) (n : ℕ)
    (ip : Bytes) (first : Option ℕ) (cs rest : List Candidate)
    → n < 100000
    → AllFail cs
    → getaddrinfo ip (decimal n) ≡ some (cs ++ from_first first rest)
    → start_tcp getaddrinfo shared (port_option (decimal n) ∷ address_option ip ∷ [])
      ≡ connected_or_exit first
unfolding start_tcp parse_command_line_args parse_options parse_option connect_tcp get_port
    server_address establish_connection print_int do_connect is_default
start_tcp-connects getaddrinfo shared n ip first cs rest h fail e =
    rw (atoi-decimal n (omega arith)) (
      ap (λ t. do_connect (getaddrinfo ip t)) (printed n h)
      ∙ ap do_connect e
      ∙ ap connected_or_exit (tried first cs rest fail))
