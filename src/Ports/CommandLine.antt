-- ===== src/Ports/CommandLine.antt =====
-- parse_command_line_arguments of src/server/server.c.
-- getopt belongs to the C library: the argument is what it returns, option by option.
use shelter_server.Prelude.{
  ℕ, ◌^◌, ◌<◌, ℤ, pos, negsuc, ◌≡◌, refl, ap, Bytes, text, bytes_eq, atoi, decimal, atoi-decimal,
  true, Option, none, some, List, [], ◌∷◌, if◌then◌else◌,
}
use shelter_server.Client.{Run, ok, exit_failure, deref, ◌>>=◌}
use shelter_server.Client.CommandLine.{
  Argument, port_option, parse_option, parse_options, parse_command_line_args,
}
use shelter_server.Ports.{Ports, is_default, choose_ports}
use shelter_server.Ports.Shared.{
  PortInfo, share_ports_shared_memory, shared_tcp_port, shared_udp_port, get_port,
}

-- An option "-p" with its argument and with `argv[optind]`, `none` where that is past the end, or
-- what getopt reports of any other.
pub data ServerArgument : Type 0 where
  p_option : Bytes → Option Bytes → ServerArgument
  other_option : ServerArgument

unfoldable pub given_tcp_port : Option Bytes → Ports → Run Ports
given_tcp_port none p = exit_failure
given_tcp_port (some a) p = deref (atoi a) >>= λ n. ok (record p { tcp_port = n })

unfoldable pub given_udp_port : Option Bytes → Ports → Run Ports
given_udp_port none p = exit_failure
given_udp_port (some a) p = deref (atoi a) >>= λ n. ok (record p { udp_port = n })

unfoldable pub parse_server_option : ServerArgument → Ports → Run Ports
unfolding bytes_eq given_tcp_port given_udp_port
parse_server_option (p_option optarg next) p =
    if bytes_eq optarg (text "tcp")
    then given_tcp_port next p
    else if bytes_eq optarg (text "udp")
    then given_udp_port next p
    else exit_failure
parse_server_option other_option p = exit_failure

unfoldable pub parse_command_line_arguments : List ServerArgument → Ports → Run Ports
unfolding parse_server_option
parse_command_line_arguments [] p = ok p
parse_command_line_arguments (a ∷ rest) p =
    parse_server_option a p >>= parse_command_line_arguments rest

-- The ports with which main starts, by what the system would assign.
abbrev pub default_ports : (ℕ → ℕ) → Ports
default_ports assigned = record {
  tcp_port = negsuc 0;
  udp_port = negsuc 0;
  assigned = assigned;
  calls = 0;
}

-- The start of main, up to the ports that it uses.
unfoldable pub server_ports : (ℕ → ℕ) → List ServerArgument → Run Ports
unfolding parse_command_line_arguments choose_ports
server_ports assigned arguments =
    parse_command_line_arguments arguments (default_ports assigned) >>= λ p. ok (choose_ports p)

-- The options "-p tcp" and "-p udp" with these ports.
abbrev pub both_ports : ℕ → ℕ → List ServerArgument
both_ports tcp udp =
    p_option (text "tcp") (some (decimal tcp)) ∷ p_option (text "udp") (some (decimal udp)) ∷ []

ports_parsed :
    (assigned : ℕ → ℕ) (tcp udp : ℕ)
    → tcp < 2 ^ 31
    → udp < 2 ^ 31
    → server_ports assigned (both_ports tcp udp)
      ≡ ok (record (default_ports assigned) { tcp_port = pos tcp; udp_port = pos udp })
unfolding server_ports parse_command_line_arguments parse_server_option given_tcp_port
    given_udp_port bytes_eq choose_ports is_default
ports_parsed assigned tcp udp h k = rw (atoi-decimal tcp h) (rw (atoi-decimal udp k) refl)

-- What the server shares of its ports, when nothing fails.
abbrev pub share : Option PortInfo → Ports → Option PortInfo
share before p =
    share_ports_shared_memory (record { opens = true; truncates = true; maps = true }) p.tcp_port
      p.udp_port before

-- The port that a client uses with these arguments.
abbrev pub tcp_client_port : List Argument → Option PortInfo → Run ℤ
tcp_client_port arguments shared =
    parse_command_line_args arguments >>= λ o. get_port o.port (shared_tcp_port shared)

abbrev pub udp_client_port : List Argument → Option PortInfo → Run ℤ
udp_client_port arguments shared =
    parse_command_line_args arguments >>= λ o. get_port o.port (shared_udp_port shared)

-- A server that is started with the decimal texts of a TCP and a UDP port below 2^31 shares these
-- ports, when the shared memory does not fail; a TCP client without arguments then uses the first, a
-- UDP client without arguments the second, and a client of either kind that is given the text of a
-- port itself uses that port, whatever is shared.
pub server_ports-clients :
    (assigned : ℕ → ℕ) (tcp udp : ℕ) (before shared : Option PortInfo)
    → tcp < 2 ^ 31
    → udp < 2 ^ 31
    → ((server_ports assigned (both_ports tcp udp) >>= λ p. tcp_client_port [] (share before p))
        ≡ ok (pos tcp))
      × ((server_ports assigned (both_ports tcp udp) >>= λ p. udp_client_port [] (share before p))
          ≡ ok (pos udp))
      × (tcp_client_port (port_option (decimal tcp) ∷ []) shared ≡ ok (pos tcp))
      × (udp_client_port (port_option (decimal udp) ∷ []) shared ≡ ok (pos udp))
unfolding parse_command_line_args parse_options parse_option get_port shared_tcp_port
    shared_udp_port share_ports_shared_memory is_default
server_ports-clients assigned tcp udp before shared h k =
    let e = ports_parsed assigned tcp udp h k in
    (
      ap (λ r. r >>= λ p. tcp_client_port [] (share before p)) e,
      ap (λ r. r >>= λ p. udp_client_port [] (share before p)) e,
      rw (atoi-decimal tcp h) refl,
      rw (atoi-decimal udp k) refl,
    )
