-- ===== src/Tests/Parts.antt =====
-- The theorems on the lists of clients, the stocks, the last event, the ports and the encoding at
-- concrete data.
use shelter_server.Prelude.{
  ℕ, List, Option, pos, negsuc, add_int, ◌+ℤ◌, ltb_ℤ, ◌^◌, ◌≡◌, ◌↔◌, ◌≤◌, ◌+◌, ◌*◌, refl, text,
  bytes_eq, true, none, some, ◌++◌, [], ◌∷◌, ◌==◌, arith, ltb, if◌then◌else◌, length,
}
use shelter_server.Supplies.{
  no_food, no_medicine, add_clamped, supplies_json, update_food_at, update_medicine_at,
}
use shelter_server.Supplies.Stock.{add_clamped_lem, cut_at_zero}
use shelter_server.Supplies.RoundTrip.{update-supplies_json}
use shelter_server.Emergency.{
  initialize_entry_alerts_count, get_alerts_for_entry, count_entry, update_emergency_info,
  get_last_event, get_last_keepalived,
}
use shelter_server.Emergency.Counters.{north, get_alerts-count_entry}
use shelter_server.Emergency.Texts.{get-update_emergency_info}
use shelter_server.Clients.Array.{erase_first, any}
use shelter_server.Clients.Tcp
use shelter_server.Clients.Tcp.{clients}
use shelter_server.Clients.Udp
use shelter_server.Clients.Udp.{known_clients, same_client}
use shelter_server.Server.{Succeeds}
use shelter_server.Registry.{add_tcp_client, remove_tcp_client, add_udp_client}
use shelter_server.Registry.Clients.{
  clients-add_tcp_client, clients-remove_tcp_client, known_clients-add_udp_client,
}
use shelter_server.Ports.{Ports, set_ports, choose_ports, set_ports_lem}
use shelter_server.TcpClient.Encoding.{
  encode_utf8, allocated, triples, singles, dropped, encode_utf8_fits,
}
use shelter_server.SocketSetup.{
  Call, af_inet, af_inet6, set_tcp_ipv4_socket, set_tcp_ipv6_socket, set_udp_ipv4_socket,
  set_udp_ipv6_socket, set_unix_socket, set_tcp_socket, set_udp_socket,
}
use shelter_server.SocketSetup.Endpoints.{
  no_call, is_option, SetsUp, tcp_endpoint, udp_endpoint, unix_endpoint, sockets-SetsUp,
}
use shelter_server.TcpClient.Menu.{asked, menu_turn}
use shelter_server.TcpClient.Reading.{
  FoodItem, MedicineItem, food_input, medicine_input, raise_food, raise_medicine,
}
use shelter_server.TcpClient.Updates.{IsUpdate, menu_turn-updates}
use shelter_server.Tests.{json, server, food, medicine, other_client}

update-supplies_json_example :
    (update_food_at json (some no_food) (supplies_json json food medicine) ≡ some (some food))
    × (update_medicine_at json (some no_medicine) (supplies_json json food medicine)
        ≡ some (some medicine))
update-supplies_json_example =
    update-supplies_json json food medicine
      (record {
        meat = omega arith;
        vegetables = omega arith;
        fruits = omega arith;
        water = omega arith;
      })
      (record { antibiotics = omega arith; analgesics = omega arith; bandages = omega arith })

-- The sum of the two largest numbers empties the stock.
add_clamped_lem_example : add_clamped (pos 2147483647) (pos 2147483647) ≡ (
    if ltb_ℤ (pos 2147483647 +ℤ pos 2147483647) (pos (2 ^ 31))
    then cut_at_zero (pos 2147483647 +ℤ pos 2147483647)
    else pos 0)
add_clamped_lem_example =
    add_clamped_lem (pos 2147483647) (pos 2147483647) (omega arith) (omega arith)

clients-add_tcp_client_example :
    Succeeds
      (λ t. clients t.tcp_clients ≡ (
        if Tcp.has_room server.tcp_clients
        then clients server.tcp_clients ++ 9 ∷ []
        else clients server.tcp_clients))
      (add_tcp_client 9 server)
clients-add_tcp_client_example =
    clients-add_tcp_client 9 server (record { size = refl; within = omega arith })

clients-remove_tcp_client_example :
    Succeeds
      (λ t. clients t.tcp_clients ≡ erase_first (λ x. x == 7) (clients server.tcp_clients))
      (remove_tcp_client 7 server)
clients-remove_tcp_client_example =
    clients-remove_tcp_client 7 server (record { size = refl; within = omega arith })

known_clients-add_udp_client_example :
    Succeeds
      (λ t. known_clients t.udp_clients ≡ (
        if any (same_client other_client) (known_clients server.udp_clients)
        then known_clients server.udp_clients
        else if Udp.has_room server.udp_clients
        then known_clients server.udp_clients ++ other_client ∷ []
        else known_clients server.udp_clients))
      (add_udp_client other_client server)
known_clients-add_udp_client_example =
    known_clients-add_udp_client other_client server
      (record { size = refl; within = omega arith; distinct = unfold known_clients in (refl, tt) })

get_alerts-count_entry_example :
    get_alerts_for_entry (count_entry (text "NORTH") initialize_entry_alerts_count) (text "NORTH")
    ≡ (if bytes_eq (text "NORTH") (text "NORTH")
        then add_int (get_alerts_for_entry initialize_entry_alerts_count (text "NORTH")) (pos 1)
        else get_alerts_for_entry initialize_entry_alerts_count (text "NORTH"))
get_alerts-count_entry_example =
    get_alerts-count_entry initialize_entry_alerts_count (text "NORTH") (text "NORTH") north

get-update_emergency_info_example :
    (get_last_keepalived (update_emergency_info (text "10:00") (text "NORTH, ALERT"))
      ≡ (if ltb (length (text "10:00")) 30 then some (text "10:00") else none))
    × (get_last_event (update_emergency_info (text "10:00") (text "NORTH, ALERT"))
        ≡ (if ltb (length (text "NORTH, ALERT")) 100 then some (text "NORTH, ALERT") else none))
get-update_emergency_info_example =
    get-update_emergency_info (text "10:00") (text "NORTH, ALERT") (ground arith) (ground arith)

abbrev ports : Ports
ports = record { tcp_port = pos 5005; udp_port = negsuc 0; assigned = λ i. 40000 + i; calls = 0 }

set_ports_lem_example : set_ports ports ≡ choose_ports ports
set_ports_lem_example = set_ports_lem ports

-- A system whose calls all succeed, with the descriptor 3 for every socket.
abbrev answer : List Call → Call → Option ℕ
answer calls c = some 3

sockets-SetsUp_example :
    SetsUp answer is_option []
      (tcp_endpoint af_inet (pos 5000) 5)
      (set_tcp_ipv4_socket answer (pos 5000) 5 [])
    × SetsUp answer is_option []
        (tcp_endpoint af_inet6 (pos 5000) 5)
        (set_tcp_ipv6_socket answer (pos 5000) 5 [])
    × SetsUp answer no_call []
        (udp_endpoint af_inet (pos 5000))
        (set_udp_ipv4_socket answer (pos 5000) [])
    × SetsUp answer no_call []
        (udp_endpoint af_inet6 (pos 5000))
        (set_udp_ipv6_socket answer (pos 5000) [])
    × SetsUp answer no_call []
        (unix_endpoint (text "/tmp/socket") 5 true)
        (set_unix_socket answer (text "/tmp/socket") 5 true [])
    × SetsUp answer no_call []
        (tcp_endpoint af_inet6 (pos 5000) 5)
        (set_tcp_socket answer (pos 5000) 5 [])
    × SetsUp answer no_call []
        (udp_endpoint af_inet6 (pos 5000))
        (set_udp_socket answer (pos 5000) [])
sockets-SetsUp_example = sockets-SetsUp answer (pos 5000) 5 (text "/tmp/socket") true []

encode_utf8_fits_example :
    (length (encode_utf8 (233 ∷ 65 ∷ [])) + 1 ≤ allocated (233 ∷ 65 ∷ []))
    ↔ (triples (233 ∷ 65 ∷ []) ≤ singles (233 ∷ 65 ∷ []) + 2 * dropped (233 ∷ 65 ∷ []))
encode_utf8_fits_example = encode_utf8_fits (233 ∷ 65 ∷ [])

menu_turn-updates_example :
    ((item : FoodItem)
      → (j : json.Json) × (menu_turn json true (food_input item (negsuc 4)) ≡ asked j)
        × IsUpdate json j (raise_food item (negsuc 4)) (λ m. m))
    × ((item : MedicineItem)
        → (j : json.Json) × (menu_turn json true (medicine_input item (negsuc 4)) ≡ asked j)
          × IsUpdate json j (λ f. f) (raise_medicine item (negsuc 4)))
menu_turn-updates_example = menu_turn-updates json (negsuc 4) (omega arith)
