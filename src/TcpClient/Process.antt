-- ===== src/TcpClient/Process.antt =====
-- main of src/clients/tcp_client.c: the parent process asks the user, the child hears the server.
use shelter_server.Prelude.{ℕ, Bytes, Bool, true, Option, none, some, List}
use shelter_server.Json.{CJson}
use shelter_server.Client.{Run, ok, exit_failure, exit_success, fault, ◌>>=◌}
use shelter_server.Client.CommandLine.{Argument}
use shelter_server.Client.Fork.{fork_child, redirect_output_to_parent}
use shelter_server.Client.OsRelease.{get_os_id}
use shelter_server.Client.HostName.{hostname, hostname_faults}
use shelter_server.Client.Rounds.{Session}
use shelter_server.Ports.Shared.{PortInfo}
use shelter_server.TcpClient.Connection.{Candidate, start_tcp}
use shelter_server.TcpClient.Login.{authenticate}
use shelter_server.TcpClient.Menu.{Input}
use shelter_server.TcpClient.Session.{Listener, handle_user_input, handle_server_messages}

-- What the two processes do: the login, the messages for the user's answers so far, and what the
-- messages of the server so far make of the child.
pub record Processes (c : CJson) : Type 0 where
  pub login : c.Json
  pub user : Session
  pub server : Run Listener

-- The code does not end with a value.
abbrev Never : {A : Type 0} → Run A → Type 0
Never (ok a) = ⊥
Never exit_failure = Unit
Never exit_success = Unit
Never fault = Unit

Never-bind : {A B : Type 0} (r : Run A) (k : A → Run B) → ((a : A) → Never (k a)) → Never (r >>= k)
Never-bind (ok a) k h = h a
Never-bind exit_failure k h = tt
Never-bind exit_success k h = tt
Never-bind fault k h = tt

bind-Never : {A B : Type 0} (r : Run A) (k : A → Run B) → Never r → Never (r >>= k)
bind-Never (ok a) k h = absurd h
bind-Never exit_failure k h = tt
bind-Never exit_success k h = tt
bind-Never fault k h = tt

module _ (c : CJson) where
  -- `authenticated` is set before the answer to the login is read.
  unfoldable pub tcp_main :
      (Bytes → Bytes → Option (List Candidate))
      → Option PortInfo
      → List Argument
      → Option Bytes
      → Option ℕ
      → ℕ
      → Bool
      → List Input
      → List (Option Bytes)
      → Run (Processes c)
  unfolding start_tcp authenticate fork_child redirect_output_to_parent handle_user_input
      handle_server_messages
  tcp_main getaddrinfo shared arguments os_release forked pid_parent duplicated inputs messages =
      start_tcp getaddrinfo shared arguments >>= λ sockfd. authenticate c os_release >>= λ login.
      fork_child forked >>= λ pid_child. ok (record {
        login = login;
        user = handle_user_input c true pid_child inputs;
        server = redirect_output_to_parent duplicated >>= λ _.
            ok (handle_server_messages c true pid_parent messages);
      })

  authenticate-Never : (file : Option Bytes) → Never (authenticate c file)
  unfolding authenticate
  authenticate-Never none = unfold hostname get_os_id in tt
  authenticate-Never (some file) = rw (hostname_faults file) tt

  -- However it was started, the TCP client does not come to its two processes as C has it: it exits,
  -- or it reads the name of the host from an array that is no more.
  pub tcp_main-Never :
      (getaddrinfo : Bytes → Bytes → Option (List Candidate)) (shared : Option PortInfo)
      (arguments : List Argument) (os_release : Option Bytes) (forked : Option ℕ) (pid_parent : ℕ)
      (duplicated : Bool) (inputs : List Input) (messages : List (Option Bytes))
      → Never (
          tcp_main getaddrinfo shared arguments os_release forked pid_parent duplicated inputs
            messages)
  unfolding tcp_main
  tcp_main-Never getaddrinfo shared arguments os_release forked pid_parent duplicated inputs
        messages =
      Never-bind (start_tcp getaddrinfo shared arguments) _
        (λ sockfd. bind-Never _ _ (authenticate-Never os_release))
