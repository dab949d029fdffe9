-- ===== src/UdpClient/Process.antt =====
-- main and handle_server_messages of src/clients/udp_client.c: the parent process asks the user, the
-- child shows what the server sends.
use shelter_server.Prelude.{ℕ, ◌≡◌, refl, Bytes, Bool, Option, some, List, [], ◌∷◌}
use shelter_server.Json.{CJson}
use shelter_server.Client.{Run, ok, fault, ◌>>=◌}
use shelter_server.Client.CommandLine.{Argument}
use shelter_server.Client.Fork.{fork_child, redirect_output_to_parent}
use shelter_server.Client.HostName.{hostname_faults}
use shelter_server.Client.Rounds.{Session}
use shelter_server.Ports.Shared.{PortInfo}
use shelter_server.TcpClient.Menu.{Input}
use shelter_server.UdpClient.Connection.{Destination, start_udp}
use shelter_server.UdpClient.Session.{Shown, handle_user_input, receive_and_handle_json}

-- What the two processes do: where the client sends, the messages for the user's answers so far, and
-- what is shown of the server's messages so far.
pub record Processes (c : CJson) : Type 0 where
  pub destination : Destination
  pub user : Run Session
  pub server : Run (List (Shown c))

module _ (c : CJson) where
  unfoldable pub handle_server_messages : List (Option Bytes) → Run (List (Shown c))
  unfolding receive_and_handle_json
  handle_server_messages [] = ok []
  handle_server_messages (received ∷ rest) = receive_and_handle_json c received >>= λ shown.
      handle_server_messages rest >>= λ more. ok (shown ∷ more)

  unfoldable pub udp_main :
      (Bool → Bytes → Option ℕ)
      → Bool
      → Option PortInfo
      → List Argument
      → Option Bytes
      → Option ℕ
      → Bool
      → List Input
      → List (Option Bytes)
      → Run (Processes c)
  unfolding start_udp fork_child redirect_output_to_parent handle_user_input handle_server_messages
  udp_main inet_pton created shared arguments os_release forked duplicated inputs messages =
      start_udp inet_pton created shared arguments >>= λ destination.
      fork_child forked >>= λ pid_child. ok (record {
        destination = destination;
        user = handle_user_input c destination.is_ipv6 os_release pid_child inputs;
        server = redirect_output_to_parent duplicated >>= λ _. handle_server_messages messages;
      })

  -- Where the file opens, the parent process does not come to its first round as C has it: it reads the
  -- name of the host from an array that is no more.
  pub handle_user_input_faults :
      (ipv6 : Bool) (file : Bytes) (pid_child : ℕ) (inputs : List Input)
      → handle_user_input c ipv6 (some file) pid_child inputs ≡ fault
  unfolding handle_user_input
  handle_user_input_faults ipv6 file pid_child inputs = rw (hostname_faults file) refl
