-- ===== src/Connections/Handlers.antt =====
-- The handlers and the connections: handle_unix_socket_activity, check_alerts,
-- handle_udp_socket_activity and handle_tcp_socket_activity.
use shelter_server.Prelude.{
  ℕ, ◌+◌, ◌≡◌, ap, Bytes, Bool, true, false, Option, none, some, List, ◌∷◌, ◌==◌, arith,
  if◌then◌else◌,
}
use shelter_server.Json.{CJson}
use shelter_server.Net.{Ntop}
use shelter_server.Clients.Array.{erase_first}
use shelter_server.Clients.Tcp.{
  clients, search_fd, remove_found, remove_found-IsValid, remove_fd, clients-remove_fd,
}
use shelter_server.Clients.Udp.{SockAddr}
use shelter_server.Server.{Server, opened, closed, M, pure}
use shelter_server.Log.{log_event}
use shelter_server.Registry.{remove_tcp_found, remove_tcp_client}
use shelter_server.TcpHandler.{
  has, fd_clear, unwatch, forget_client, drop_client, handle_activity, handle_tcp_socket_activity,
  check_tcp_clients_messages,
}
use shelter_server.UdpHandler.{Datagram, handle_udp_socket_activity}
use shelter_server.AlertHandler.{handle_power_failure, handle_unix_socket_activity, check_alerts}
use shelter_server.Invariant.{Keeps}
use shelter_server.Invariant.Requests.{check_tcp_clients_messages-Keeps}
use shelter_server.Invariant.Events.{handle_udp_socket_activity-Keeps, udp_update-Keeps}
use shelter_server.Invariant.Alerts.{handle_power_failure-Keeps, check_alerts-Keeps}
use shelter_server.Connections.{View, view, Seen, Safe, Goes, IsFresh}
use shelter_server.Connections.Sets.{has-append}
use shelter_server.Connections.Effects.{
  Ends-bind, seen_quiet, supplies-Seen, sent-Seen, ends, send_to_all_tcp_clients-Seen,
}
use shelter_server.Connections.Steps.{Rest, New, close_step, forget_step}
use shelter_server.Connections.Accept.{opens}

module _ (sockets read : List ℕ) (i : ℕ) (c : CJson) where
  -- An action that keeps this predicate of the view.
  kept :
      {A : Type 0} (Q : View → Type 0) (m : M A) (s : Server)
      → Keeps (Seen sockets Q) m
      → Seen sockets Q s
      → Goes sockets Q (m s)
  kept Q m s k h = ends sockets Q Q (m s) (λ v q. q) (k.at s h)

  pub handle_unix-Goes :
      (accepted : Option ℕ) (received : Option Bytes) (s : Server)
      → Seen sockets (Rest sockets read i) s
      → Goes sockets (Rest sockets read i) (handle_unix_socket_activity c true accepted received s)
  unfolding handle_unix_socket_activity
  handle_unix-Goes none received s h = h
  handle_unix-Goes (some fd) received s h =
      let N : View → Type 0 = New sockets read i fd in
      let s1 : Server = record s { trace = opened fd ∷ s.trace } in
      Ends-bind (λ _. Seen sockets N) _ (Safe sockets) (handle_power_failure c received s1) _
        (kept N (handle_power_failure c received) s1
          (handle_power_failure-Keeps (seen_quiet sockets N)
            (λ m. send_to_all_tcp_clients-Seen sockets N m (λ v q. q.0.listed)) c received)
          (opens sockets read i fd s h))
        (λ _ t p fresh. (close_step sockets read i fd (view t) (p fresh).0, (p fresh).1))

  pub check_alerts-Goes :
      (fifo : Option (Option Bytes)) (s : Server)
      → Seen sockets (Rest sockets read i) s
      → Goes sockets (Rest sockets read i) (check_alerts fifo s)
  check_alerts-Goes fifo s h =
      let R : View → Type 0 = Rest sockets read i in
      kept R (check_alerts fifo) s
        (check_alerts-Keeps (seen_quiet sockets R)
          (λ m. send_to_all_tcp_clients-Seen sockets R m (λ v q. q.0.listed)) fifo)
        h

  pub handle_udp-Goes :
      (net : Ntop) (fd : ℕ) (datagram : Option Datagram) (s : Server)
      → Seen sockets (Rest sockets read i) s
      → Goes sockets (Rest sockets read i) (handle_udp_socket_activity c net fd datagram s)
  handle_udp-Goes net fd datagram s h =
      let R : View → Type 0 = Rest sockets read i in
      kept R (handle_udp_socket_activity c net fd datagram) s
        (handle_udp_socket_activity-Keeps c net (seen_quiet sockets R)
          (udp_update-Keeps c net (seen_quiet sockets R) (supplies-Seen sockets R c)) fd datagram)
        h

module _ (sockets read : List ℕ) (fd : ℕ) (apart : has fd sockets ≡ false) (c : CJson)
    (net : Ntop) where
  -- What is left to do once the descriptor is closed and no longer watched.
  removed :
      (o : Option ℕ) (s : Server)
      → Seen sockets (Rest sockets read fd) s
      → (IsFresh sockets s.trace
          → clients (remove_found o s.tcp_clients)
            ≡ erase_first (λ x. x == fd) (clients s.tcp_clients))
      → Goes sockets (Rest sockets read (fd + 1)) (
          remove_tcp_found o
            (record s { trace = closed fd ∷ s.trace; master_fds = fd_clear fd s.master_fds }))
  unfolding remove_tcp_found
  removed none s h e = λ fresh. (
    forget_step sockets read fd (view s) (remove_found none s.tcp_clients) (h fresh).0 apart
        (remove_found-IsValid none s.tcp_clients (h fresh).0.0.valid) (e fresh),
    (h fresh).1,
  )
  removed (some k) s h e =
      let R : View → Type 0 = Rest sockets read (fd + 1) in
      ends sockets R R _ (λ v q. q)
        (((seen_quiet sockets R).log_rule _).at _ (λ fresh. (
          forget_step sockets read fd (view s) (remove_found (some k) s.tcp_clients) (h fresh).0
              apart (remove_found-IsValid (some k) s.tcp_clients (h fresh).0.0.valid) (e fresh),
          (h fresh).1,
        )))

  forget-Goes :
      (s : Server)
      → Seen sockets (Rest sockets read fd) s
      → Goes sockets (Rest sockets read (fd + 1)) (forget_client c net fd s)
  unfolding unwatch remove_tcp_client remove_fd
  forget-Goes s h =
      removed (search_fd fd s.tcp_clients) s h
        (λ fresh. clients-remove_fd fd s.tcp_clients (h fresh).0.0.valid)

  -- The client is open while its request is handled.
  abbrev InUse : View → Type 0
  InUse v = Rest sockets read fd v × (has fd v.open_now ≡ true)

  drop-Goes :
      (addr : SockAddr) (s : Server)
      → Seen sockets InUse s
      → Goes sockets (Rest sockets read (fd + 1)) (drop_client c net fd addr s)
  unfolding drop_client
  drop-Goes addr s h =
      Ends-bind (λ _. Seen sockets InUse) _ (Safe sockets) (log_event _ s) _
        (ends sockets InUse InUse _ (λ v q. q) (((seen_quiet sockets InUse).log_rule _).at s h))
        (λ _ t p. forget-Goes t (λ fresh. ((p fresh).0.0, (p fresh).1)))

  answered :
      (addr : SockAddr) (read_well : Bool) (s : Server)
      → Seen sockets InUse s
      → Goes sockets
          (Rest sockets read (fd + 1))
          ((if read_well then pure tt else drop_client c net fd addr) s)
  answered addr true s h =
      λ fresh. (((h fresh).0.0.0, λ n le r. (h fresh).0.0.1 n (omega arith) r), (h fresh).1)
  answered addr false s h = drop-Goes addr s h

  activity-Goes :
      (peer : Option SockAddr) (received : Option Bytes) (s : Server)
      → Seen sockets InUse s
      → Goes sockets (Rest sockets read (fd + 1)) (handle_activity c net fd peer received s)
  unfolding handle_activity
  activity-Goes none received s h = forget-Goes s (λ fresh. ((h fresh).0.0, (h fresh).1))
  activity-Goes (some addr) received s h =
      Ends-bind (λ _. Seen sockets InUse) _ (Safe sockets)
        (check_tcp_clients_messages c net fd received s) _
        (ends sockets InUse InUse _ (λ v q. q)
          ((check_tcp_clients_messages-Keeps c (seen_quiet sockets InUse) net fd
              (λ m. sent-Seen sockets InUse fd m (λ v q. q.1)) (supplies-Seen sockets InUse c)
              received).at
            s h))
        (λ read_well t p. answered addr read_well t p)

  in_use :
      (s : Server)
      → has fd read ≡ true
      → Seen sockets (Rest sockets read fd) s
      → Seen sockets InUse s
  in_use s r h fresh =
      let (m, later) = (h fresh).0 in
      (
        (
          (m, later),
          ground (
            arith,
            later fd (omega arith) r,
            ap (has fd) m.watched,
            has-append fd (view s).open_now sockets,
            apart,
          ),
        ),
        (h fresh).1,
      )

  pub handle_tcp-Goes :
      (received : Option Bytes) (s : Server)
      → has fd read ≡ true
      → Seen sockets (Rest sockets read fd) s
      → Goes sockets (Rest sockets read (fd + 1)) (handle_tcp_socket_activity c net fd received s)
  unfolding handle_tcp_socket_activity
  handle_tcp-Goes received s r h = activity-Goes (s.host.peer fd) received s (in_use s r h)
