-- ===== src/UdpHandler.antt =====
-- The UDP side of src/server/server.c: receive_udp_json, send_json_to_udp_client and
-- check_udp_clients_messages. The result of recvfrom is `none` for -1, and otherwise the bytes, at
-- most BUFFER_SIZE - 1 of them, with the sender's address and its length.
pub mod Authorization
use shelter_server.Prelude.{
  ℕ, Bytes, String, text, snprintf, bytes_eq, Bool, true, false, Option, none, some, ◌++◌,
  if◌then◌else◌,
}
use shelter_server.Json.{CJson}
use shelter_server.Supplies.{convert_supplies_to_json}
use shelter_server.Clients.Udp.{UdpClientData, SockAddr}
use shelter_server.Server.{M, pure, deref, emit, sent_to, get_state, put_state, ◌>>=◌, ◌>>◌}
use shelter_server.Log.{log_event}
use shelter_server.Net.{Ntop, get_udp_client_info}
use shelter_server.Registry.{add_udp_client}
use shelter_server.Summary.{create_summary_json, update_supplies_from_json}
use shelter_server.TcpHandler.{received_string, admin_user}

pub record Datagram : Type 0 where
  pub content : Bytes
  pub sender : SockAddr
  pub sender_len : ℕ

module _ (c : CJson) (net : Ntop) where
  open c use {Json, parse, print, get_object_item, value_string}

  -- The client's address is printed from a buffer that is not written for an unknown family.
  unfoldable pub client_ip_of : SockAddr → M Bytes
  unfolding get_udp_client_info
  client_ip_of addr = deref (get_udp_client_info net addr).0

  unfoldable pub receive_udp_json : Option Datagram → M (Option Json)
  unfolding client_ip_of received_string
  receive_udp_json none = pure none
  receive_udp_json (some d) = do _ ← client_ip_of d.sender; pure (parse (received_string d.content))

  -- cJSON_Print gives NULL for NULL, and strlen reads it. The address is then printed.
  unfoldable pub send_json_to_udp_client : ℕ → SockAddr → Option Json → M (Unit {0})
  send_json_to_udp_client sockfd addr json = do j ← deref json; emit (sent_to sockfd addr (print j))

  abbrev pub udp_line : String → Bytes → Bytes
  udp_line start ip = snprintf 256 (text start ++ ip)

  -- An update is made for the admin user only, whose name comes with each request.
  unfoldable pub udp_update : Bytes → Json → Option Bytes → M (Unit {0})
  unfolding bytes_eq update_supplies_from_json
  udp_update ip json auth = do
    user ← deref auth
    if bytes_eq user admin_user
        then (do
          update_supplies_from_json c json
          log_event (udp_line "Update request from authenticated UDP client " ip))
        else log_event (udp_line "Update request from not authenticated UDP client " ip)

  unfoldable pub udp_status : ℕ → SockAddr → Bytes → M (Unit {0})
  unfolding send_json_to_udp_client
  udp_status sockfd addr ip = do
    log_event (udp_line "Status request from UDP client " ip)
    s ← get_state
    supplies ← deref (convert_supplies_to_json c s.host.alloc s.food s.medicine)
    send_json_to_udp_client sockfd addr supplies

  unfoldable pub udp_summary : ℕ → SockAddr → Bytes → M (Unit {0})
  unfolding send_json_to_udp_client
  udp_summary sockfd addr ip = do
    log_event (udp_line "Summary request from UDP client " ip)
    summary ← create_summary_json c
    send_json_to_udp_client sockfd addr (some summary)

  -- The chain of strcmp on the value of "message"; other values are only reported on the terminal.
  unfoldable pub udp_message : ℕ → SockAddr → Bytes → Json → Bytes → Option Bytes → M (Unit {0})
  unfolding udp_update udp_status udp_summary bytes_eq
  udp_message sockfd addr ip json value auth =
      if bytes_eq value (text "update")
      then udp_update ip json auth
      else if bytes_eq value (text "status")
      then udp_status sockfd addr ip
      else if bytes_eq value (text "summary")
      then udp_summary sockfd addr ip
      else pure tt

  -- A request without "message" or without "hostname" is refused.
  unfoldable pub udp_request : ℕ → SockAddr → Bytes → Json → Option Json → Option Json → M Bool
  unfolding udp_message
  udp_request sockfd addr ip json none hostname = pure false
  udp_request sockfd addr ip json (some message) none = pure false
  udp_request sockfd addr ip json (some message) (some hostname) = do
    value ← deref (value_string message)
    udp_message sockfd addr ip json value (value_string hostname)
    pure true

  unfoldable pub handle_datagram : ℕ → Datagram → Json → M Bool
  unfolding client_ip_of udp_request
  handle_datagram sockfd d json = do
    ip ← client_ip_of d.sender
    add_udp_client (record { sockfd = sockfd; client_addr = d.sender; addr_len = d.sender_len })
    udp_request sockfd d.sender ip json (get_object_item json (text "message"))
        (get_object_item json (text "hostname"))

  unfoldable pub handle_received : ℕ → Datagram → Option Json → M Bool
  unfolding handle_datagram
  handle_received sockfd d none = pure false
  handle_received sockfd d (some json) = handle_datagram sockfd d json

  unfoldable pub check_udp_clients_messages : ℕ → Option Datagram → M Bool
  unfolding receive_udp_json handle_received
  check_udp_clients_messages sockfd none = pure false
  check_udp_clients_messages sockfd (some d) = do
    received_json ← receive_udp_json (some d)
    handle_received sockfd d received_json

  -- handle_udp_socket_activity only reports a failure on the terminal.
  unfoldable pub handle_udp_socket_activity : ℕ → Option Datagram → M (Unit {0})
  unfolding check_udp_clients_messages
  handle_udp_socket_activity sockfd received = do
    _ ← check_udp_clients_messages sockfd received
    pure tt
