-- ===== src/AlertHandler.antt =====
-- check_alerts, handle_unix_socket_activity and sigint_handler of src/server/server.c.
pub mod Delivery
pub mod LongAlert
use shelter_server.Prelude.{
  ℕ, zero, ◌-◌, Bytes, text, replicate, Bool, true, false, Option, none, some, ◌++◌, ◌==◌, ltb,
  List, [], ◌∷◌, length, if◌then◌else◌,
}
use shelter_server.Json.{CJson}
use shelter_server.Emergency.{update_emergency_info, c_string, detect_entry, count_entry}
use shelter_server.Server.{
  M, pure, crash, deref, emit, opened, closed, killed, get_state, put_state, ◌>>=◌, ◌>>◌,
}
use shelter_server.Log.{log_event}
use shelter_server.Registry.{send_to_all_tcp_clients, send_to_all_udp_clients}
use shelter_server.Summary.{set_emergency}
use shelter_server.TcpHandler.{buffer_size, received_string, message_json}

-- The buffer of zeros after a read of these bytes, as a string; `none` where the read has filled
-- it and no zero ends it.
unfoldable pub alert_string : Bytes → Option Bytes
unfolding c_string
alert_string bytes = c_string (bytes ++ replicate (buffer_size - length bytes) 0)

unfoldable pub count_detected : Option Bytes → M (Unit {0})
unfolding count_entry
count_detected none = pure tt
count_detected (some entry) = do
  s ← get_state
  put_state (record s { entry_alerts_count = count_entry entry s.entry_alerts_count })

unfoldable pub process_alert : Bytes → M (Unit {0})
unfolding detect_entry count_detected set_emergency
process_alert alert_message = do
  log_event alert_message
  set_emergency alert_message
  send_to_all_tcp_clients alert_message
  send_to_all_udp_clients alert_message
  log_event (text "Sent alert notification to all connected clients")
  count_detected (detect_entry alert_message)

-- The result of open is `none` for -1, and that of read likewise.
unfoldable pub check_alerts : Option (Option Bytes) → M (Unit {0})
unfolding alert_string process_alert
check_alerts none = pure tt
check_alerts (some none) = pure tt
check_alerts (some (some [])) = pure tt
check_alerts (some (some (b ∷ bs))) = do
  alert_message ← deref (alert_string (b ∷ bs))
  process_alert alert_message

-- The terminating zero goes to `buffer[bytes_received]`, past the end of a full buffer.
unfoldable pub unix_string : Bytes → M Bytes
unfolding received_string
unix_string bytes = if length bytes == buffer_size then crash else pure (received_string bytes)

module _ (c : CJson) where
  unfoldable pub handle_power_failure : Option Bytes → M (Unit {0})
  unfolding unix_string
  handle_power_failure none = pure tt
  handle_power_failure (some []) = pure tt
  handle_power_failure (some (b ∷ bs)) = do
    message ← unix_string (b ∷ bs)
    send_to_all_tcp_clients (c.print (message_json c "disconnect"))
    log_event message

  -- A socket with no connections: the message is only shown.
  unfoldable pub receive_unix_datagram : Option Bytes → M (Unit {0})
  unfolding unix_string
  receive_unix_datagram none = pure tt
  receive_unix_datagram (some []) = pure tt
  receive_unix_datagram (some (b ∷ bs)) = do _ ← unix_string (b ∷ bs); pure tt

  -- The results of accept (accept_unix_connection) and of recv.
  unfoldable pub handle_unix_socket_activity : Bool → Option ℕ → Option Bytes → M (Unit {0})
  unfolding handle_power_failure receive_unix_datagram
  handle_unix_socket_activity false accepted received = receive_unix_datagram received
  handle_unix_socket_activity true none received = pure tt
  handle_unix_socket_activity true (some client_fd) received = do
    emit (opened client_fd)
    handle_power_failure received
    emit (closed client_fd)

-- kill of a child that was started.
abbrev pub kill_child : ℕ → M (Unit {0})
kill_child pid = if ltb 0 pid then emit (killed pid) else pure tt

unfoldable pub stop_running : M (Unit {0})
stop_running = do s ← get_state; put_state (record s { running = false })

unfoldable pub sigint_handler : M (Unit {0})
unfolding stop_running
sigint_handler = do
  stop_running
  s ← get_state
  kill_child s.alerts_pid
  kill_child s.power_outage_pid
