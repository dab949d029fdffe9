-- ===== src/Invariant/Events.antt =====
-- The handlers of the TCP and UDP descriptors under a predicate of their actions.
use shelter_server.Prelude.{ℕ, Bytes, false, Option, none, some, ◌≡◌, refl}
use shelter_server.Json.{CJson}
use shelter_server.Clients.Udp.{SockAddr}
use shelter_server.Server.{Server}
use shelter_server.Net.{Ntop}
use shelter_server.Summary.{create_summary_json, update_supplies_from_json}
use shelter_server.TcpHandler.{
  check_tcp_clients_messages, forget_client, drop_client, handle_activity,
  handle_tcp_socket_activity, accept_tcp_connection, connection_message,
}
use shelter_server.UdpHandler
use shelter_server.UdpHandler.{Datagram}
use shelter_server.Invariant.{
  Keeps, Keeps-pure, Keeps-bind, Keeps-deref, rules, Gives, Gives-pure, Gives-bind,
}
use shelter_server.Invariant.Closed.{Quiet, Closed}
use shelter_server.Invariant.Requests.{check_tcp_clients_messages-Keeps, create_summary_json-Keeps}

-- What accept returns, where it returns a descriptor.
abbrev pub IsAccepted : Option (ℕ × SockAddr) → Option ℕ → Type 0
IsAccepted none fd = fd ≡ none
IsAccepted (some (client_fd, addr)) fd = fd ≡ some client_fd

module _ {P : Server → Type 0} (closed : Closed P) where
  open closed use {quiet, connected_rule, add_tcp_rule}

  pub accept_tcp_connection-Gives :
      (net : Ntop) (accepted : Option (ℕ × SockAddr))
      → Gives P (IsAccepted accepted) (accept_tcp_connection net accepted)
  unfolding accept_tcp_connection
  accept_tcp_connection-Gives net none = Gives-pure none refl
  accept_tcp_connection-Gives net (some (fd, addr)) = Gives-bind _ _ (connected_rule fd) λ _.
      Gives-bind _ _ (Keeps-deref (connection_message net addr.family addr)) λ message.
        Gives-bind _ _ (quiet.log_rule message)
          λ _. Gives-bind _ _ (add_tcp_rule fd) λ _. Gives-pure (some fd) refl

module _ (c : CJson) {P : Server → Type 0} (closed : Closed P) where
  open closed use {quiet, closed_rule, sent_rule, remove_tcp_rule, unwatch_rule}

  module _ (supplies : (json : c.Json) → Keeps P (update_supplies_from_json c json))
      (net : Ntop) where
    messages-Keeps :
        (fd : ℕ) (received : Option Bytes) → Keeps P (check_tcp_clients_messages c net fd received)
    messages-Keeps fd received =
        check_tcp_clients_messages-Keeps c quiet net fd (sent_rule fd) supplies received

    forget_client-Keeps : (fd : ℕ) → Keeps P (forget_client c net fd)
    forget_client-Keeps fd = search (rules, closed_rule, unwatch_rule, remove_tcp_rule)

    drop_client-Keeps : (fd : ℕ) (addr : SockAddr) → Keeps P (drop_client c net fd addr)
    unfolding drop_client
    drop_client-Keeps fd addr = Keeps-bind _ _ (quiet.log_rule _) (λ _. forget_client-Keeps fd)

    handle_activity-Keeps :
        (fd : ℕ) (peer : Option SockAddr) (received : Option Bytes)
        → Keeps P (handle_activity c net fd peer received)
    unfolding handle_activity
    handle_activity-Keeps fd none received = forget_client-Keeps fd
    handle_activity-Keeps fd (some addr) received =
        search (rules, messages-Keeps, drop_client-Keeps)

    pub handle_tcp_socket_activity-Keeps :
        (fd : ℕ) (received : Option Bytes) → Keeps P (handle_tcp_socket_activity c net fd received)
    unfolding handle_tcp_socket_activity
    handle_tcp_socket_activity-Keeps fd received = search (rules, handle_activity-Keeps)

-- The UDP handlers that make no update.
module _ (c : CJson) (net : Ntop) {P : Server → Type 0} (quiet : Quiet P) where
  open quiet use {sent_to_rule, log_rule, add_udp_rule}

  pub client_ip_of-Keeps : (addr : SockAddr) → Keeps P (UdpHandler.client_ip_of c net addr)
  unfolding UdpHandler.client_ip_of
  client_ip_of-Keeps addr = search rules

  pub udp_status-Keeps :
      (fd : ℕ) (addr : SockAddr) (ip : Bytes) → Keeps P (UdpHandler.udp_status c net fd addr ip)
  unfolding UdpHandler.udp_status UdpHandler.send_json_to_udp_client
  udp_status-Keeps fd addr ip = search (rules, sent_to_rule, log_rule) depth 12

  summary-Keeps : Keeps P (create_summary_json c)
  summary-Keeps = create_summary_json-Keeps c

  pub udp_summary-Keeps :
      (fd : ℕ) (addr : SockAddr) (ip : Bytes) → Keeps P (UdpHandler.udp_summary c net fd addr ip)
  unfolding UdpHandler.udp_summary UdpHandler.send_json_to_udp_client
  udp_summary-Keeps fd addr ip = search (rules, sent_to_rule, log_rule, summary-Keeps) depth 12

  -- The request of a client, by a rule for the branch of the updates.
  module _
      (ip_update : (ip : Bytes) (json : c.Json) (auth : Option Bytes)
        → Keeps P (UdpHandler.udp_update c net ip json auth)) where
    udp_message-Keeps :
        (fd : ℕ) (addr : SockAddr) (ip : Bytes) (json : c.Json) (value : Bytes)
        (auth : Option Bytes)
        → Keeps P (UdpHandler.udp_message c net fd addr ip json value auth)
    unfolding UdpHandler.udp_message
    udp_message-Keeps fd addr ip json value auth =
        search (rules, ip_update, udp_status-Keeps, udp_summary-Keeps) depth 12

    udp_request-Keeps :
        (fd : ℕ) (addr : SockAddr) (ip : Bytes) (json : c.Json) (message hostname : Option c.Json)
        → Keeps P (UdpHandler.udp_request c net fd addr ip json message hostname)
    unfolding UdpHandler.udp_request
    udp_request-Keeps fd addr ip json none hostname = Keeps-pure false
    udp_request-Keeps fd addr ip json (some message) none = Keeps-pure false
    udp_request-Keeps fd addr ip json (some message) (some hostname) =
        search (rules, udp_message-Keeps) depth 12

    udp_received-Keeps :
        (fd : ℕ) (d : Datagram) (json : Option c.Json)
        → Keeps P (UdpHandler.handle_received c net fd d json)
    unfolding UdpHandler.handle_received UdpHandler.handle_datagram
    udp_received-Keeps fd d none = Keeps-pure false
    udp_received-Keeps fd d (some json) = search (rules, add_udp_rule, udp_request-Keeps) depth 12

    pub handle_udp_socket_activity-Keeps :
        (fd : ℕ) (received : Option Datagram)
        → Keeps P (UdpHandler.handle_udp_socket_activity c net fd received)
    unfolding UdpHandler.handle_udp_socket_activity UdpHandler.check_udp_clients_messages
        UdpHandler.receive_udp_json
    handle_udp_socket_activity-Keeps fd none = Keeps-pure tt
    handle_udp_socket_activity-Keeps fd (some d) = search (rules, udp_received-Keeps) depth 12

  -- An update passes through update_supplies_from_json alone.
  pub udp_update-Keeps :
      ((json : c.Json) → Keeps P (update_supplies_from_json c json))
      → (ip : Bytes) (json : c.Json) (auth : Option Bytes)
      → Keeps P (UdpHandler.udp_update c net ip json auth)
  unfolding UdpHandler.udp_update
  udp_update-Keeps supplies ip json auth = search (rules, log_rule, supplies) depth 12
