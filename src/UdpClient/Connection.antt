-- ===== src/UdpClient/Connection.antt =====
-- The start of src/clients/udp_client.c: main up to fork, with get_port, establish_connection and
-- set_server_addr.
-- inet_pton belongs to the C library and is a parameter: the address of a text, in the family that
-- the flag names, or `none` for a text that is no address.
use shelter_server.Prelude.{
  ℕ, ◌-◌, ◌%◌, ◌^◌, ℤ, pos, negsuc, ◌≡◌, refl, atoi, text, bytes_eq, Bytes, Bool, true, false,
  Option, none, some, List, [], ◌∷◌, if◌then◌else◌,
}
use shelter_server.Client.{
  Run, ok, exit_failure, deref, ◌>>=◌, Returns, Returns-bind, Returns-if, Returns-any,
}
use shelter_server.Client.CommandLine.{
  Argument, port_option, address_option, type_option, unknown_option, Options, no_options, set_type,
  parse_option, parse_options, parse_command_line_args,
}
use shelter_server.Ports.Shared.{PortInfo, shared_udp_port, get_port}

-- server_addr or server_addrv6, which start as zeros.
pub record Destination : Type 0 where
  pub is_ipv6 : Bool
  pub sin_port : ℕ
  pub sin_addr : ℕ

-- The conversion of an `int` to uint16_t.
unfoldable pub uint16 : ℤ → ℕ
uint16 (pos n) = n % 2 ^ 16
uint16 (negsuc n) = 2 ^ 16 - 1 - n % 2 ^ 16

module _ (inet_pton : Bool → Bytes → Option ℕ) where
  abbrev pub address_of : Option ℕ → ℕ
  address_of none = 0
  address_of (some a) = a

  -- inet_pton reads the text of the address.
  unfoldable pub set_server_addr : Option Bytes → ℤ → Bool → Run Destination
  unfolding uint16
  set_server_addr ip_address port ipv6 = deref ip_address >>= λ ip.
      ok (record {
        is_ipv6 = ipv6;
        sin_port = uint16 port;
        sin_addr = address_of (inet_pton ipv6 ip);
      })

  -- The first argument says whether the call of socket succeeds.
  unfoldable pub establish_connection : Bool → Option Bytes → ℤ → Bool → Run Destination
  unfolding set_server_addr
  establish_connection created ip_address port ipv6 =
      if created then set_server_addr ip_address port ipv6 else exit_failure

  unfoldable pub connect_udp : Bool → Option PortInfo → Options → Run Destination
  unfolding establish_connection get_port shared_udp_port
  connect_udp created shared o = get_port o.port (shared_udp_port shared) >>= λ port.
      establish_connection created o.ip_address port o.ipv6

  unfoldable pub start_udp : Bool → Option PortInfo → List Argument → Run Destination
  unfolding parse_command_line_args connect_udp
  start_udp created shared arguments =
      parse_command_line_args arguments >>= connect_udp created shared

-- An option "-a" is among the options.
abbrev pub gives_address : List Argument → Bool
gives_address [] = false
gives_address (address_option a ∷ rest) = true
gives_address (port_option p ∷ rest) = gives_address rest
gives_address (type_option t ∷ rest) = gives_address rest
gives_address (unknown_option ∷ rest) = gives_address rest

abbrev pub HasNoAddress : Options → Type 0
HasNoAddress o = o.ip_address ≡ none

port_no_address :
    (port : Option ℤ) (o : Options)
    → HasNoAddress o
    → Returns HasNoAddress (deref port >>= λ n. ok (record o { port = n }))
port_no_address none o h = tt
port_no_address (some n) o h = h

type_no_address :
    (flag : Bool) (optarg : Bytes) (o : Options)
    → HasNoAddress o
    → Returns HasNoAddress (if flag then exit_failure else set_type optarg o)
unfolding set_type
type_no_address true optarg o h = tt
type_no_address false optarg o h =
    Returns-if HasNoAddress (bytes_eq optarg (text "v4")) _ _ h
      (Returns-if HasNoAddress (bytes_eq optarg (text "v6")) _ _ h tt)

options_no_address :
    (arguments : List Argument) (o : Options)
    → gives_address arguments ≡ false
    → HasNoAddress o
    → Returns HasNoAddress (parse_options arguments o)
unfolding parse_options parse_option
options_no_address [] o e h = h
options_no_address (address_option a ∷ rest) o e h = cc
options_no_address (port_option p ∷ rest) o e h =
    Returns-bind HasNoAddress HasNoAddress _ (parse_options rest) (port_no_address (atoi p) o h)
      (λ t. options_no_address rest t e)
options_no_address (type_option t ∷ rest) o e h =
    Returns-bind HasNoAddress HasNoAddress _ (parse_options rest)
      (type_no_address o.address_flag t o h) (λ t. options_no_address rest t e)
options_no_address (unknown_option ∷ rest) o e h = tt

module _ (inet_pton : Bool → Bytes → Option ℕ) (created : Bool) (shared : Option PortInfo) where
  -- Without an address nothing is returned.
  no_connection :
      (P : Destination → Type 0) (o : Options)
      → HasNoAddress o
      → Returns P (connect_udp inet_pton created shared o)
  unfolding connect_udp establish_connection set_server_addr
  no_connection P o h =
      Returns-bind (λ port. Unit) P _ _ (Returns-any (get_port o.port (shared_udp_port shared)))
        (λ port u. Returns-if P created _ _ (rw h tt) tt)

  -- Without an option "-a" among its options the UDP client never comes to its menu, whatever the
  -- other options are and whatever the host answers: it exits, or it reads a NULL address.
  pub start_udp-no_address :
      (arguments : List Argument)
      → gives_address arguments ≡ false
      → Returns (λ d. ⊥) (start_udp inet_pton created shared arguments)
  unfolding start_udp parse_command_line_args
  start_udp-no_address arguments e =
      Returns-bind HasNoAddress (λ d. ⊥) _ (connect_udp inet_pton created shared)
        (options_no_address arguments no_options e refl) (no_connection (λ d. ⊥))
