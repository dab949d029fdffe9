-- ===== src/UdpClient/Menu.antt =====
-- handle_user_input of src/clients/udp_client.c, one round of its loop, and the sending of what a
-- round asks for: sendJson_v4, sendJson_v6, send_to_server_v4 and send_to_server_v6.
use shelter_server.Prelude.{
  ℤ, ◌≡◌, refl, Bool, true, false, String, Bytes, text, bytes_eq, Option, none, some, length, leb,
  if◌then◌else◌,
}
use shelter_server.Json.{CJson}
use shelter_server.TcpHandler.{buffer_size}
use shelter_server.TcpClient.Menu.{
  Input, Turn, asked, repeated, returned, left, typed, food_name, medicine_name, item_json,
}

-- What sendto is given: nothing for a message that does not fit the buffer with its zero.
unfoldable pub send_to_server_v4 : Bytes → Option Bytes
send_to_server_v4 message = if leb buffer_size (length message) then none else some message

unfoldable pub send_to_server_v6 : Bytes → Option Bytes
send_to_server_v6 message = if leb buffer_size (length message) then none else some message

module _ (c : CJson) where
  open c use {Json, print, create_object, create_string, add_item}

  unfoldable pub send_json_v4 : Json → Option Bytes
  unfolding send_to_server_v4
  send_json_v4 json = send_to_server_v4 (print json)

  unfoldable pub send_json_v6 : Json → Option Bytes
  unfolding send_to_server_v6
  send_json_v6 json = send_to_server_v6 (print json)

  -- The choice by the flag, which stands behind each request.
  unfoldable pub send_json : Bool → Json → Option Bytes
  unfolding send_json_v4 send_json_v6
  send_json ipv6 json = if ipv6 then send_json_v6 json else send_json_v4 json

  -- Over either family the text is sent if it is shorter than the buffer.
  pub send_json_lem :
      (ipv6 : Bool) (json : Json)
      → send_json ipv6 json
        ≡ (if leb buffer_size (length (print json)) then none else some (print json))
  unfolding send_json send_json_v4 send_json_v6 send_to_server_v4 send_to_server_v6
  send_json_lem true json = refl
  send_json_lem false json = refl

  -- Each request carries the name of the client's system.
  unfoldable pub named_request : Bytes → String → Json
  named_request hostname m =
      add_item (add_item create_object (text "hostname") (create_string hostname)) (text "message")
        (create_string (text m))

  unfoldable pub ask_named_item : Bytes → String → Option Bytes → ℤ → Turn c
  unfolding named_request item_json
  ask_named_item hostname section none amount = repeated
  ask_named_item hostname section (some name) amount =
      asked (add_item (named_request hostname "update") (text section) (item_json c name amount))

  unfoldable pub read_named_item :
      Bytes → String → (Bytes → Option Bytes) → Option Bytes → Option ℤ → Turn c
  unfolding ask_named_item
  read_named_item hostname section names none amount = returned
  read_named_item hostname section names (some item) none = returned
  read_named_item hostname section names (some item) (some amount) =
      ask_named_item hostname section (names item) amount

  unfoldable pub read_named_resource : Bytes → Option Bytes → Option Bytes → Option ℤ → Turn c
  unfolding read_named_item bytes_eq food_name medicine_name
  read_named_resource hostname none item amount = returned
  read_named_resource hostname (some resource) item amount =
      if bytes_eq resource (typed "1")
      then read_named_item hostname "food" food_name item amount
      else if bytes_eq resource (typed "2")
      then read_named_item hostname "medicine" medicine_name item amount
      else repeated

  unfoldable pub choose_named : Bytes → Bytes → Input → Turn c
  unfolding read_named_resource bytes_eq named_request
  choose_named hostname choice input =
      if bytes_eq choice (typed "1")
      then asked (named_request hostname "status")
      else if bytes_eq choice (typed "2")
      then read_named_resource hostname input.resource input.item input.amount
      else if bytes_eq choice (typed "3")
      then asked (named_request hostname "summary")
      else if bytes_eq choice (typed "4")
      then left
      else repeated

  unfoldable pub choose_named_if_read : Bytes → Option Bytes → Input → Turn c
  unfolding choose_named
  choose_named_if_read hostname none input = returned
  choose_named_if_read hostname (some choice) input = choose_named hostname choice input

  unfoldable pub datagram_turn : Bytes → Input → Turn c
  unfolding choose_named_if_read
  datagram_turn hostname input = choose_named_if_read hostname input.choice input
