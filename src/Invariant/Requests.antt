-- ===== src/Invariant/Requests.antt =====
-- The handlers of a TCP client's requests under a predicate of their actions.
use shelter_server.Prelude.{ℕ, Bytes, Option, none, some, true, false, [], ◌∷◌}
use shelter_server.Json.{CJson}
use shelter_server.Supplies.{FoodSupply, MedicineSupply}
use shelter_server.Server.{Server, sent, emit}
use shelter_server.Net.{Ntop, get_tcp_client_ip}
use shelter_server.Summary.{create_summary_json, send_json_to_tcp_client, update_supplies_from_json}
use shelter_server.TcpHandler.{
  authenticate_client, handle_status, update_if_present, handle_update, handle_summary,
  handle_invalid, handle_message, handle_request, receive_tcp_json, handle_received,
  check_tcp_clients_messages,
}
use shelter_server.Invariant.{Keeps, Keeps-pure, Keeps-bind, Keeps-crash, rules}
use shelter_server.Invariant.Closed.{Quiet}

pub create_summary_json-Keeps : (c : CJson) {P : Server → Type 0} → Keeps P (create_summary_json c)
unfolding create_summary_json
create_summary_json-Keeps c = search rules depth 12

module _ (c : CJson) {P : Server → Type 0} (quiet : Quiet P) (net : Ntop) (fd : ℕ)
    (reply : (message : Bytes) → Keeps P (emit (sent fd message)))
    (supplies : (json : c.Json) → Keeps P (update_supplies_from_json c json)) where
  open c use {Json}
  open quiet use {log_rule, emergency_rule}

  send_json-Keeps : (j : Option Json) → Keeps P (send_json_to_tcp_client c fd j)
  unfolding send_json_to_tcp_client
  send_json-Keeps j = search (rules, reply)

  get_tcp_client_ip-Keeps : Keeps P (get_tcp_client_ip net fd)
  unfolding get_tcp_client_ip
  get_tcp_client_ip-Keeps = search rules

  authenticate_client-Keeps :
      (hostname : Option Json) → Keeps P (authenticate_client c net fd hostname)
  unfolding authenticate_client
  authenticate_client-Keeps none = Keeps-pure true
  authenticate_client-Keeps (some hostname) =
      search (rules, log_rule, get_tcp_client_ip-Keeps, send_json-Keeps) depth 12

  handle_status-Keeps : Keeps P (handle_status c net fd)
  unfolding handle_status
  handle_status-Keeps =
      search (rules, log_rule, emergency_rule, get_tcp_client_ip-Keeps, send_json-Keeps) depth 12

  update_if_present-Keeps :
      (food : Option FoodSupply) (medicine : Option MedicineSupply) (json : Json)
      → Keeps P (update_if_present c net food medicine json)
  unfolding update_if_present
  update_if_present-Keeps none medicine json = Keeps-pure tt
  update_if_present-Keeps (some f) none json = Keeps-pure tt
  update_if_present-Keeps (some f) (some m) json = supplies json

  handle_update-Keeps : (json : Json) → Keeps P (handle_update c net fd json)
  unfolding handle_update
  handle_update-Keeps json =
      search (rules, log_rule, emergency_rule, get_tcp_client_ip-Keeps, update_if_present-Keeps)
        depth 12

  summary-Keeps : Keeps P (create_summary_json c)
  summary-Keeps = create_summary_json-Keeps c

  handle_summary-Keeps : Keeps P (handle_summary c net fd)
  unfolding handle_summary
  handle_summary-Keeps =
      search (rules, log_rule, get_tcp_client_ip-Keeps, send_json-Keeps, summary-Keeps) depth 12

  handle_invalid-Keeps : Keeps P (handle_invalid c net fd)
  unfolding handle_invalid
  handle_invalid-Keeps = search (rules, log_rule, get_tcp_client_ip-Keeps) depth 12

  handle_message-Keeps :
      (json : Json) (value : Bytes) → Keeps P (handle_message c net fd json value)
  unfolding handle_message
  handle_message-Keeps json value =
      search
        (
          rules, authenticate_client-Keeps, handle_status-Keeps, handle_update-Keeps,
          handle_summary-Keeps, handle_invalid-Keeps,
        )
        depth 12

  handle_request-Keeps :
      (json : Json) (message : Option Json) → Keeps P (handle_request c net fd json message)
  unfolding handle_request
  handle_request-Keeps json none = Keeps-pure true
  handle_request-Keeps json (some message) = search (rules, handle_message-Keeps)

  receive_tcp_json-Keeps : (received : Option Bytes) → Keeps P (receive_tcp_json c received)
  unfolding receive_tcp_json
  receive_tcp_json-Keeps none = Keeps-pure none
  receive_tcp_json-Keeps (some []) = Keeps-pure none
  receive_tcp_json-Keeps (some (b ∷ bs)) = search (rules, Keeps-crash)

  handle_received-Keeps : (json : Option Json) → Keeps P (handle_received c net fd json)
  unfolding handle_received
  handle_received-Keeps none = Keeps-pure false
  handle_received-Keeps (some json) = handle_request-Keeps json _

  pub check_tcp_clients_messages-Keeps :
      (received : Option Bytes) → Keeps P (check_tcp_clients_messages c net fd received)
  unfolding check_tcp_clients_messages
  check_tcp_clients_messages-Keeps received =
      Keeps-bind _ _ (receive_tcp_json-Keeps received) (λ json. handle_received-Keeps json)
