-- ===== src/TcpHandler.antt =====
-- The TCP side of src/server/server.c: accept_tcp_connection, receive_tcp_json,
-- check_tcp_clients_messages and handle_tcp_socket_activity.
-- The result of recv is `none` for -1, and the bytes received otherwise: none of them where the
-- client has closed the connection.
pub mod Updates
use shelter_server.Prelude.{
  ℕ, Bytes, String, text, snprintf, bytes_eq, Bool, true, false, Option, none, some, ◌++◌, ◌==◌,
  List, [], ◌∷◌, ◌||◌, length, if◌then◌else◌,
}
use shelter_server.Json.{CJson}
use shelter_server.Supplies.{FoodSupply, MedicineSupply, convert_supplies_to_json}
use shelter_server.Emergency.{update_emergency_info, c_string}
use shelter_server.Clients.Udp.{Family, inet, inet6, other, SockAddr}
use shelter_server.Server.{
  M, Server, pure, crash, deref, emit, connected, closed, get_state, put_state, ◌>>=◌, ◌>>◌,
}
use shelter_server.Log.{log_event}
use shelter_server.Net.{Ntop, get_tcp_client_ip, is_v4_mapped, mapped_ipv4}
use shelter_server.Registry.{add_tcp_client, remove_tcp_client}
use shelter_server.Summary.{
  create_summary_json, send_json_to_tcp_client, update_supplies_from_json, set_emergency,
}

abbrev pub buffer_size : ℕ
buffer_size = 1024

-- What a C string function reads of the bytes that recv wrote and of the zero put behind them.
unfoldable pub received_string : Bytes → Bytes
received_string [] = []
received_string (b ∷ bs) = if b == 0 then [] else b ∷ received_string bs

abbrev pub admin_user : Bytes
admin_user = text "ubuntu"

-- FD_ISSET, FD_CLR and FD_SET on a set of descriptors.
abbrev pub has : ℕ → List ℕ → Bool
has fd [] = false
has fd (x ∷ xs) = (x == fd) || has fd xs

unfoldable pub fd_clear : ℕ → List ℕ → List ℕ
fd_clear fd [] = []
fd_clear fd (x ∷ xs) = let rest = fd_clear fd xs in if x == fd then rest else x ∷ rest

-- FD_CLR on the set that select watches.
unfoldable pub unwatch : ℕ → M (Unit {0})
unfolding fd_clear
unwatch fd = do s ← get_state; put_state (record s { master_fds = fd_clear fd s.master_fds })

abbrev pub fd_set : ℕ → List ℕ → List ℕ
fd_set fd fds = fd ∷ fds

module _ (net : Ntop) where
  -- `log_message` is not written for a family that is neither AF_INET6 nor AF_INET.
  unfoldable pub connection_message : Family → SockAddr → Option Bytes
  connection_message inet6 addr = some (
      if is_v4_mapped addr.addr6
      then snprintf 256
          (text "New TCP IPv4 client connected from IP: " ++ net.ntop4 (mapped_ipv4 addr.addr6))
      else snprintf 256 (text "New TCP IPv6 client connected from IP: " ++ net.ntop6 addr.addr6))
  connection_message inet addr =
      some (snprintf 256 (text "New IPv4 client connected from IP: " ++ net.ntop4 addr.word))
  connection_message other addr = none

  -- The argument is the result of accept.
  unfoldable pub accept_tcp_connection : Option (ℕ × SockAddr) → M (Option ℕ)
  unfolding connection_message
  accept_tcp_connection none = pure none
  accept_tcp_connection (some (client_fd, addr)) = do
    emit (connected client_fd)
    message ← deref (connection_message addr.family addr)
    log_event message
    add_tcp_client client_fd
    pure (some client_fd)

module _ (c : CJson) where
  open c use {Json, parse, get_object_item, value_string, create_object, create_string, add_item}

  -- The terminating zero goes to `buffer[bytes_received]`, past the end of a full buffer.
  unfoldable pub receive_tcp_json : Option Bytes → M (Option Json)
  unfolding received_string
  receive_tcp_json none = pure none
  receive_tcp_json (some []) = pure none
  receive_tcp_json (some (b ∷ bs)) =
      if length (b ∷ bs) == buffer_size then crash else pure (parse (received_string (b ∷ bs)))

  abbrev pub message_json : String → Json
  message_json m = add_item create_object (text "message") (create_string (text m))

  module _ (net : Ntop) where
    -- The start of the request's line in the log, and the client's address.
    abbrev pub request_message : String → ℕ → M Bytes
    request_message start client_fd = do
      ip ← get_tcp_client_ip net client_fd
      pure (snprintf 256 (text start ++ ip))

    -- A request with the message "authenticateme". The answer is 1 for an admitted client.
    unfoldable pub authenticate_client : ℕ → Option Json → M Bool
    unfolding bytes_eq send_json_to_tcp_client
    authenticate_client client_fd none = pure true
    authenticate_client client_fd (some hostname) = do
      hostname_value ← deref (value_string hostname)
      if bytes_eq hostname_value admin_user
          then (do
            line ← request_message "Update request from authenticated TCP client " client_fd
            log_event line
            send_json_to_tcp_client c client_fd (some (message_json "auth_success"))
            pure true)
          else (do
            line ← request_message "Update request from not authenticated TCP client " client_fd
            log_event line
            send_json_to_tcp_client c client_fd (some (message_json "auth_failure"))
            pure false)

    abbrev pub note_request : Bytes → M (Unit {0})
    note_request line = do set_emergency line; log_event line

    unfoldable pub handle_status : ℕ → M (Unit {0})
    unfolding send_json_to_tcp_client set_emergency
    handle_status client_fd = do
      line ← request_message "Status request from TCP client " client_fd
      note_request line
      s ← get_state
      supplies ← deref (convert_supplies_to_json c s.host.alloc s.food s.medicine)
      send_json_to_tcp_client c client_fd supplies

    -- The update is made only where both segments are there.
    unfoldable pub update_if_present :
        Option FoodSupply → Option MedicineSupply → Json → M (Unit {0})
    unfolding update_supplies_from_json
    update_if_present none medicine json = pure tt
    update_if_present (some f) none json = pure tt
    update_if_present (some f) (some m) json = update_supplies_from_json c json

    unfoldable pub handle_update : ℕ → Json → M (Unit {0})
    unfolding update_if_present set_emergency
    handle_update client_fd json = do
      line ← request_message "Update request from TCP client " client_fd
      note_request line
      s ← get_state
      update_if_present s.food s.medicine json

    unfoldable pub handle_summary : ℕ → M (Unit {0})
    unfolding send_json_to_tcp_client
    handle_summary client_fd = do
      line ← request_message "Summary request from TCP client " client_fd
      log_event line
      summary ← create_summary_json c
      send_json_to_tcp_client c client_fd (some summary)

    unfoldable pub handle_invalid : ℕ → M (Unit {0})
    handle_invalid client_fd = do
      line ← request_message "Invalid request received from TCP client " client_fd
      log_event line

    -- The chain of strcmp on the value of "message".
    unfoldable pub handle_message : ℕ → Json → Bytes → M Bool
    unfolding authenticate_client handle_status handle_update handle_summary handle_invalid bytes_eq
    handle_message client_fd json value =
        if bytes_eq value (text "authenticateme")
        then authenticate_client client_fd (get_object_item json (text "hostname"))
        else if bytes_eq value (text "status")
        then (do handle_status client_fd; pure true)
        else if bytes_eq value (text "update")
        then (do handle_update client_fd json; pure true)
        else if bytes_eq value (text "summary")
        then (do handle_summary client_fd; pure true)
        else do handle_invalid client_fd; pure true

    -- A request without "message" is read and left.
    unfoldable pub handle_request : ℕ → Json → Option Json → M Bool
    unfolding handle_message
    handle_request client_fd json none = pure true
    handle_request client_fd json (some message) = do
      value ← deref (value_string message)
      handle_message client_fd json value

    -- `false` is the result 0, for a failure, the end of the connection, or a text that is no JSON.
    unfoldable pub handle_received : ℕ → Option Json → M Bool
    unfolding handle_request
    handle_received client_fd none = pure false
    handle_received client_fd (some json) =
        handle_request client_fd json (get_object_item json (text "message"))

    unfoldable pub check_tcp_clients_messages : ℕ → Option Bytes → M Bool
    unfolding receive_tcp_json handle_received
    check_tcp_clients_messages client_fd received = do
      received_json ← receive_tcp_json received
      handle_received client_fd received_json

    abbrev pub forget_client : ℕ → M (Unit {0})
    forget_client client_fd = do
      emit (closed client_fd)
      unwatch client_fd
      remove_tcp_client client_fd

    -- The text of the client's address as handle_tcp_socket_activity writes it.
    unfoldable pub activity_ip : Family → SockAddr → Bytes
    activity_ip inet addr = net.ntop4 addr.word
    activity_ip inet6 addr = net.ntop6 addr.addr6
    activity_ip other addr = text "Unknown"

    unfoldable pub drop_client : ℕ → SockAddr → M (Unit {0})
    unfolding unwatch activity_ip
    drop_client client_fd addr = do
      log_event
          (snprintf 256 (text "TCP client disconnected from IP: " ++ activity_ip addr.family addr))
      forget_client client_fd

    -- The client is dropped where getpeername fails, and where its message says so.
    unfoldable pub handle_activity : ℕ → Option SockAddr → Option Bytes → M (Unit {0})
    unfolding check_tcp_clients_messages drop_client unwatch
    handle_activity client_fd none received = forget_client client_fd
    handle_activity client_fd (some addr) received = do
      read ← check_tcp_clients_messages client_fd received
      if read then pure tt else drop_client client_fd addr

    unfoldable pub handle_tcp_socket_activity : ℕ → Option Bytes → M (Unit {0})
    unfolding handle_activity
    handle_tcp_socket_activity client_fd received = do
      s ← get_state
      handle_activity client_fd (s.host.peer client_fd) received
