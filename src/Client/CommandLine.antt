-- ===== src/Client/CommandLine.antt =====
-- parse_command_line_args, the same in src/clients/tcp_client.c and src/clients/udp_client.c, and the
-- address that main of src/clients/tcp_client.c chooses.
-- getopt belongs to the C library: the argument is what it returns, option by option.
use shelter_server.Prelude.{
  ℤ, negsuc, ◌≡◌, Bytes, text, bytes_eq, contains, atoi, Bool, true, false, Option, none, some,
  List, [], ◌∷◌, if◌then◌else◌,
}
use shelter_server.Client.{Run, ok, exit_failure, deref, ◌>>=◌}

-- An option of "p:a:t:" with its argument, or what getopt reports of any other.
pub data Argument : Type 0 where
  port_option : Bytes → Argument
  address_option : Bytes → Argument
  type_option : Bytes → Argument
  unknown_option : Argument

pub record Options : Type 0 where
  pub port : ℤ
  pub ipv6 : Bool
  pub ip_address : Option Bytes
  pub address_flag : Bool

unfoldable pub set_type : Bytes → Options → Run Options
unfolding bytes_eq
set_type optarg o =
    if bytes_eq optarg (text "v4")
    then ok (record o { ipv6 = false })
    else if bytes_eq optarg (text "v6")
    then ok (record o { ipv6 = true })
    else exit_failure

-- The cases of the switch.
unfoldable pub parse_option : Argument → Options → Run Options
unfolding set_type
parse_option (port_option optarg) o = deref (atoi optarg) >>= λ port. ok (record o { port = port })
parse_option (address_option optarg) o =
    ok (record o {
      ipv6 = contains optarg (text "::");
      ip_address = some optarg;
      address_flag = true;
    })
parse_option (type_option optarg) o = if o.address_flag then exit_failure else set_type optarg o
parse_option unknown_option o = exit_failure

unfoldable pub parse_options : List Argument → Options → Run Options
unfolding parse_option
parse_options [] o = ok o
parse_options (a ∷ rest) o = parse_option a o >>= parse_options rest

abbrev pub no_options : Options
no_options = record { port = negsuc 0; ipv6 = false; ip_address = none; address_flag = false }

unfoldable pub parse_command_line_args : List Argument → Run Options
unfolding parse_options
parse_command_line_args arguments = parse_options arguments no_options

abbrev pub loopback : Bool → Bytes
loopback true = text "::1"
loopback false = text "127.0.0.1"

abbrev pub address_or : Bool → Option Bytes → Bytes
address_or ipv6 none = loopback ipv6
address_or ipv6 (some a) = a

-- The address of the TCP client, a loopback address where none was given.
unfoldable pub server_address : Options → Bytes
server_address o = address_or o.ipv6 o.ip_address

-- The address and the flags agree on what was given and on its family.
abbrev pub GivenFamily : Option Bytes → Bool → Type 0
GivenFamily none ipv6 = Unit
GivenFamily (some a) ipv6 = contains a (text "::") ≡ ipv6

abbrev pub is_given : Option Bytes → Bool
is_given none = false
is_given (some a) = true

abbrev pub SameFamily : Options → Type 0
SameFamily o = GivenFamily o.ip_address o.ipv6 × (o.address_flag ≡ is_given o.ip_address)
