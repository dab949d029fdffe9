-- ===== src/UdpClient/Session.antt =====
-- The loop of handle_user_input of src/clients/udp_client.c over the user's rounds of answers, and
-- handle_server_messages with receive_and_handle_json and handle_received_json, one message.
use shelter_server.Prelude.{
  Bool, ℕ, Bytes, not, Option, none, some, List, [], ◌∷◌, length, ◌==◌, if◌then◌else◌,
}
use shelter_server.Json.{CJson}
use shelter_server.Client.Rounds.{Session, waiting, stopped, disconnected}
use shelter_server.Client.{Run, ok, fault, ◌>>=◌}
use shelter_server.Client.HostName.{hostname}
use shelter_server.TcpHandler.{buffer_size, received_string}
use shelter_server.TcpClient.Menu.{Input, Turn, asked, repeated, returned, left}
use shelter_server.UdpClient.Menu.{send_json, datagram_turn}

abbrev pub after_sending : Option Bytes → Session → Session
after_sending none s = s
after_sending (some message) s = record s { sent = message ∷ s.sent }

module _ (c : CJson) where
  open c use {Json, parse, print}

  -- One round, before the rest of the loop.
  unfoldable pub round_of : Bool → Turn c → ℕ → Session → Session
  unfolding send_json
  round_of ipv6 (asked json) pid_child rest = after_sending (send_json c ipv6 json) rest
  round_of ipv6 repeated pid_child rest = rest
  round_of ipv6 returned pid_child rest = record { sent = []; ended = stopped }
  round_of ipv6 left pid_child rest = record {
    sent = [];
    ended = disconnected (not (pid_child == 0));
  }

  unfoldable pub rounds : Bool → Bytes → ℕ → List Input → Session
  unfolding datagram_turn round_of
  rounds ipv6 name pid_child [] = record { sent = []; ended = waiting }
  rounds ipv6 name pid_child (input ∷ inputs) =
      round_of ipv6 (datagram_turn c name input) pid_child (rounds ipv6 name pid_child inputs)

  -- The second argument is what /etc/os-release holds.
  unfoldable pub handle_user_input : Bool → Option Bytes → ℕ → List Input → Run Session
  unfolding hostname rounds
  handle_user_input ipv6 os_release pid_child inputs =
      hostname os_release >>= λ name. ok (rounds ipv6 name pid_child inputs)

  -- What is shown of a message, the formatted JSON or the text itself.
  pub data Shown : Type 0 where
    shown_json : Bytes → Shown
    shown_text : Bytes → Shown
    shown_nothing : Shown

  unfoldable pub handle_received_json : Bytes → Shown
  handle_received_json json_string = elim (parse json_string) [
    | none ↦ shown_text json_string
    | some json ↦ shown_json (print json)
  ]

  -- The result of recvfrom is `none` for -1. The zero behind a full buffer is written past its end.
  unfoldable pub receive_and_handle_json : Option Bytes → Run Shown
  unfolding handle_received_json received_string
  receive_and_handle_json none = ok shown_nothing
  receive_and_handle_json (some []) = ok shown_nothing
  receive_and_handle_json (some (b ∷ bs)) =
      if length (b ∷ bs) == buffer_size
      then fault
      else ok (handle_received_json (received_string (b ∷ bs)))
