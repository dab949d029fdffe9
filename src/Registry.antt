-- ===== src/Registry.antt =====
-- add_tcp_client, remove_tcp_client, send_to_all_tcp_clients, add_udp_client and
-- send_to_all_udp_clients of src/server/server.c, on the lists of the server.
pub mod Clients
pub mod Broadcast
use shelter_server.Prelude.{
  ℕ, ◌+◌, String, Bytes, text, snprintf, decimal, Bool, true, false, Option, none, some, ◌++◌, List,
  [], ◌∷◌, if◌then◌else◌,
}
use shelter_server.Clients.Tcp
use shelter_server.Clients.Tcp.{append_fd, remove_found, search_fd, clients}
use shelter_server.Clients.Udp
use shelter_server.Clients.Udp.{UdpClientData, append_client, find_known, known_clients}
use shelter_server.Server.{Server, M, pure, emit, sent, sent_to, get_state, put_state, ◌>>=◌, ◌>>◌}
use shelter_server.Log.{log_event}

-- The number of clients is printed into a buffer of 10 bytes, the message into one of 256.
abbrev pub count_message : String → ℕ → Bytes
count_message start n = snprintf 256 (text start ++ snprintf 10 (decimal n))

unfoldable pub add_tcp_client : ℕ → M (Unit {0})
unfolding append_fd decimal
add_tcp_client client_fd = do
  s ← get_state
  if Tcp.has_room s.tcp_clients
      then (do
        put_state (record s { tcp_clients = append_fd client_fd s.tcp_clients })
        log_event
            (count_message "Added TCP client. Total connected: " (s.tcp_clients.num_clients + 1)))
      else pure tt

-- What follows the search, with the index that it found.
unfoldable pub remove_tcp_found : Option ℕ → M (Unit {0})
unfolding remove_found decimal
remove_tcp_found none = pure tt
remove_tcp_found (some i) = do
  s ← get_state
  let left = remove_found (some i) s.tcp_clients
  put_state (record s { tcp_clients = left })
  log_event (count_message "TCP client disconnected. Total connected: " left.num_clients)

unfoldable pub remove_tcp_client : ℕ → M (Unit {0})
unfolding search_fd remove_tcp_found
remove_tcp_client client_fd = do s ← get_state; remove_tcp_found (search_fd client_fd s.tcp_clients)

unfoldable pub send_each : List ℕ → Bytes → M (Unit {0})
send_each [] message = pure tt
send_each (fd ∷ fds) message = do emit (sent fd message); send_each fds message

unfoldable pub send_to_all_tcp_clients : Bytes → M (Unit {0})
unfolding send_each clients
send_to_all_tcp_clients message = do s ← get_state; send_each (clients s.tcp_clients) message

-- What follows the search for the client among those known.
unfoldable pub add_udp_unless : Option ℕ → UdpClientData → M (Unit {0})
unfolding append_client decimal
add_udp_unless (some i) client = pure tt
add_udp_unless none client = do
  s ← get_state
  if Udp.has_room s.udp_clients
      then (do
        put_state (record s { udp_clients = append_client client s.udp_clients })
        log_event
            (count_message "Added UDP client. Total cached: " (s.udp_clients.num_clients + 1)))
      else pure tt

unfoldable pub add_udp_client : UdpClientData → M (Unit {0})
unfolding find_known add_udp_unless
add_udp_client client = do s ← get_state; add_udp_unless (find_known client s.udp_clients) client

unfoldable pub send_to_each : List UdpClientData → Bytes → M (Unit {0})
send_to_each [] message = pure tt
send_to_each (c ∷ cs) message = do
  emit (sent_to c.sockfd c.client_addr message)
  send_to_each cs message

unfoldable pub send_to_all_udp_clients : Bytes → M (Unit {0})
unfolding send_to_each known_clients
send_to_all_udp_clients message = do
  s ← get_state
  send_to_each (known_clients s.udp_clients) message
