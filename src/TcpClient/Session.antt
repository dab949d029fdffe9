-- ===== src/TcpClient/Session.antt =====
-- handle_user_input, handle_server_messages and receive_json of src/clients/tcp_client.c: the loop over
-- the user's rounds of answers in the parent process, and over the server's messages in the child.
use shelter_server.Prelude.{
  ℕ, Bytes, text, bytes_eq, Bool, true, not, Option, none, some, List, [], ◌∷◌, length, ◌==◌,
  if◌then◌else◌,
}
use shelter_server.Json.{CJson}
use shelter_server.Client.Rounds.{Session, waiting, stopped, disconnected}
use shelter_server.TcpHandler.{buffer_size, received_string}
use shelter_server.TcpClient.Menu.{Input, Turn, asked, repeated, returned, left, menu_turn}

-- The child after a message: it goes on, with its copy of `authenticated`; it has closed the socket
-- and left; it has sent SIGINT to this process and left; or it has read what is not there.
pub data Listener : Type 0 where
  listening : Bool → Listener
  server_closed : Listener
  told_to_leave : ℕ → Listener
  faulted : Listener

module _ (c : CJson) where
  open c use {Json, parse, print, get_object_item, value_string}

  -- One round, before the rest of the loop; send is given the whole text.
  unfoldable pub send_turn : Turn c → ℕ → Session → Session
  send_turn (asked json) pid_child rest = record rest { sent = print json ∷ rest.sent }
  send_turn repeated pid_child rest = rest
  send_turn returned pid_child rest = record { sent = []; ended = stopped }
  send_turn left pid_child rest = record { sent = []; ended = disconnected (not (pid_child == 0)) }

  unfoldable pub handle_user_input : Bool → ℕ → List Input → Session
  unfolding menu_turn send_turn
  handle_user_input authenticated pid_child [] = record { sent = []; ended = waiting }
  handle_user_input authenticated pid_child (input ∷ inputs) =
      send_turn (menu_turn c authenticated input) pid_child
        (handle_user_input authenticated pid_child inputs)

  -- The chain of strcmp on the value of "message".
  unfoldable pub react : Bool → ℕ → Bytes → Listener
  unfolding bytes_eq
  react authenticated pid_parent value =
      if bytes_eq value (text "auth_success")
      then listening true
      else if bytes_eq value (text "auth_failure")
      then listening authenticated
      else if bytes_eq value (text "disconnect")
      then told_to_leave pid_parent
      else listening authenticated

  -- A message without a string has the value NULL, which strcmp reads.
  unfoldable pub react_to_value : Bool → ℕ → Option Bytes → Listener
  unfolding react
  react_to_value authenticated pid_parent none = faulted
  react_to_value authenticated pid_parent (some value) = react authenticated pid_parent value

  unfoldable pub react_to_message : Bool → ℕ → Option Json → Listener
  unfolding react_to_value
  react_to_message authenticated pid_parent none = listening authenticated
  react_to_message authenticated pid_parent (some message) =
      react_to_value authenticated pid_parent (value_string message)

  -- A text that is no JSON is only shown.
  unfoldable pub react_to_json : Bool → ℕ → Option Json → Listener
  unfolding react_to_message
  react_to_json authenticated pid_parent none = listening authenticated
  react_to_json authenticated pid_parent (some json) =
      react_to_message authenticated pid_parent (get_object_item json (text "message"))

  -- The result of recv is `none` for -1. A full buffer has a zero only where one was received.
  unfoldable pub receive_json : Bool → ℕ → Option Bytes → Listener
  unfolding react_to_json received_string
  receive_json authenticated pid_parent none = listening authenticated
  receive_json authenticated pid_parent (some []) = server_closed
  receive_json authenticated pid_parent (some (b ∷ bs)) =
      if length (received_string (b ∷ bs)) == buffer_size
      then faulted
      else react_to_json authenticated pid_parent (parse (received_string (b ∷ bs)))

  abbrev pub go_on : Listener → (Bool → Listener) → Listener
  go_on (listening authenticated) next = next authenticated
  go_on server_closed next = server_closed
  go_on (told_to_leave pid) next = told_to_leave pid
  go_on faulted next = faulted

  unfoldable pub handle_server_messages : Bool → ℕ → List (Option Bytes) → Listener
  unfolding receive_json
  handle_server_messages authenticated pid_parent [] = listening authenticated
  handle_server_messages authenticated pid_parent (received ∷ rest) =
      go_on (receive_json authenticated pid_parent received)
        λ a. handle_server_messages a pid_parent rest
