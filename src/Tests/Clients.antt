-- ===== src/Tests/Clients.antt =====
-- The theorems on the clients at concrete data.
use shelter_server.Prelude.{
  ℕ, pos, ◌≡◌, refl, Bytes, text, bytes_eq, decimal, Bool, true, false, Option, none, some, List,
  [], ◌∷◌, arith, if◌then◌else◌,
}
use shelter_server.Json.{CJson}
use shelter_server.Json.Tree.{Tree, node, object, number, end, field, trees, append}
use shelter_server.Server.{Returns}
use shelter_server.Client
use shelter_server.Client.{Run, ok}
use shelter_server.Client.CommandLine.{port_option, address_option, type_option}
use shelter_server.Client.OsRelease.{pointer_to, get_os_id}
use shelter_server.Client.OsRelease.Fields.{
  Field, AreFields, print_fields, lookup, get_os_id-fields,
}
use shelter_server.TcpHandler.{admin_user, received_string, check_tcp_clients_messages}
use shelter_server.UdpHandler.{check_udp_clients_messages}
use shelter_server.TcpClient.Menu.{Input, typed, asked, item_json, request_json, menu_turn}
use shelter_server.TcpClient.Reading.{meat, food_input}
use shelter_server.TcpClient.Connection.{
  Candidate, connected_or_exit, start_tcp, start_tcp-connects,
}
use shelter_server.TcpClient.Login.{login_json, Answers, login_json-answered}
use shelter_server.UdpClient.Menu.{named_request, send_json, datagram_turn}
use shelter_server.UdpClient.Connection.{start_udp, start_udp-no_address}
use shelter_server.UdpClient.Delivery.{IsSettled, item_update, datagram_from, update-delivered}
use shelter_server.TcpClient.Items.{food_item, item_input, item_food, item_medicine, HasStocks}
use shelter_server.TcpClient.Delivery.{item_request, update-made}
use shelter_server.Net.{get_udp_client_info}
use shelter_server.Tests.{net, server, food, medicine, addr, word_tree}

abbrev pub fields : List Field
fields =
    record { key = text "NAME"; value = text "Ubuntu" }
    ∷ record { key = text "ID"; value = text "ubuntu" }
    ∷ []

fields-AreFields : AreFields fields
fields-AreFields = (
  record {
    key_plain = ground arith;
    key_line = ground arith;
    value_there = tt;
    value_plain = ground arith;
    value_line = ground arith;
    fits = omega arith;
  },
  (
    record {
      key_plain = ground arith;
      key_line = ground arith;
      value_there = tt;
      value_plain = ground arith;
      value_line = ground arith;
      fits = omega arith;
    },
    tt,
  ),
)

get_os_id-fields_example :
    get_os_id (some (print_fields fields)) ≡ ok (pointer_to (lookup (text "ID") fields))
get_os_id-fields_example = get_os_id-fields fields fields-AreFields

-- A JSON library that reads every text as this tree.
abbrev reads_as : Tree → CJson
reads_as t = trees (λ s. some t) (λ j. text "{}")

abbrev login_tree : Tree
login_tree = node object (
    field (text "message") (word_tree (text "authenticateme"))
      (field (text "hostname") (word_tree (text "ubuntu")) end))

login_json-answered_example :
    Answers
      (reads_as login_tree)
      7
      (bytes_eq (text "ubuntu") admin_user)
      (text "{}")
      (check_tcp_clients_messages (reads_as login_tree) net 7 (some (text "{}")) server)
unfolding trees login_json append received_string bytes_eq
login_json-answered_example =
    login_json-answered (reads_as login_tree) net 7 (text "ubuntu") 123 (125 ∷ []) (text "/root")
      server refl refl (omega arith) refl

-- The update of the meat by 5 in the user's answers, and the request for it.
abbrev pub inputs : List Input
inputs =
    food_input meat (pos 5) ∷ record (food_input meat (pos 5)) { choice = some (typed "4") } ∷ []

abbrev meat_tree : Tree
meat_tree = node object (
    field (text "hostname") (word_tree (text "ubuntu")) (
      field (text "message") (word_tree (text "update")) (
        field (text "food") (node object (field (text "meat") (node (number (pos 5)) end) end))
          end)))

update-delivered_example :
    (datagram_turn (reads_as meat_tree) (text "ubuntu") (item_input (food_item meat) (pos 5))
      ≡ asked (item_update (reads_as meat_tree) net (text "ubuntu") (food_item meat) (pos 5)))
    × (send_json
          (reads_as meat_tree)
          false
          (item_update (reads_as meat_tree) net (text "ubuntu") (food_item meat) (pos 5))
        ≡ some (text "{}"))
    × Returns
        (IsSettled
          (reads_as meat_tree)
          net
          (text "ubuntu")
          food
          (item_food (food_item meat) (pos 5) food)
          medicine
          medicine)
        (check_udp_clients_messages
          (reads_as meat_tree)
          net
          4
          (some (datagram_from (reads_as meat_tree) net addr 16 (text "{}")))
          server)
unfolding trees named_request item_json append received_string get_udp_client_info
update-delivered_example =
    update-delivered (reads_as meat_tree) net false (text "ubuntu") (food_item meat) (pos 5) server
      (text "/root") food medicine 4 16 addr (text "10.0.0.1") (omega arith) refl refl refl refl
      (omega arith) refl

abbrev made_tree : Tree
made_tree = node object (
    field (text "message") (word_tree (text "update"))
      (field (text "food") (node object (field (text "meat") (node (number (pos 5)) end) end)) end))

update-made_example :
    (menu_turn (reads_as made_tree) true (item_input (food_item meat) (pos 5))
      ≡ asked (item_request (reads_as made_tree) (food_item meat) (pos 5)))
    × Returns
        (HasStocks
          (item_food (food_item meat) (pos 5) food)
          (item_medicine (food_item meat) (pos 5) medicine))
        (check_tcp_clients_messages (reads_as made_tree) net 7 (some (text "{}")) server)
unfolding trees request_json item_json append received_string
update-made_example =
    update-made (reads_as made_tree) net (food_item meat) (pos 5) 7 123 (125 ∷ []) server
      (text "/root") food medicine (omega arith) refl refl refl refl (omega arith) refl

-- inet_pton of one address.
abbrev pub inet_pton : Bool → Bytes → Option ℕ
inet_pton ipv6 ip = if bytes_eq ip (text "10.0.0.1") then some 167772161 else none

start_udp-no_address_example :
    Client.Returns
      (λ d. ⊥)
      (start_udp inet_pton true
        (some (record { tcp_port = pos 5000; udp_port = pos 5001 }))
        (type_option (text "v4") ∷ []))
start_udp-no_address_example =
    start_udp-no_address inet_pton true (some (record { tcp_port = pos 5000; udp_port = pos 5001 }))
      (type_option (text "v4") ∷ []) refl

-- Two addresses, of which the second one connects.
abbrev refusing : Candidate
refusing = record { socket = some 5; connects = false }

abbrev connecting : Candidate
connecting = record { socket = some 6; connects = true }

abbrev pub getaddrinfo : Bytes → Bytes → Option (List Candidate)
getaddrinfo ip port = some (refusing ∷ connecting ∷ [])

start_tcp-connects_example :
    start_tcp getaddrinfo none (port_option (decimal 5000) ∷ address_option (text "10.0.0.1") ∷ [])
    ≡ connected_or_exit (some 6)
start_tcp-connects_example =
    start_tcp-connects getaddrinfo none 5000 (text "10.0.0.1") (some 6) (refusing ∷ []) []
      (omega arith) (refl, tt) refl
