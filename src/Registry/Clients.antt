-- ===== src/Registry/Clients.antt =====
-- What add_tcp_client, remove_tcp_client and add_udp_client do to the lists of the server.
use shelter_server.Prelude.{
  ℕ, ◌≡◌, refl, ap, Bytes, Option, none, some, [], ◌∷◌, ◌++◌, ◌==◌, arith, if◌then◌else◌,
  Bool-cases, inl, inr, ◌∙◌,
}
use shelter_server.Clients.Array.{erase_first, any, Found}
use shelter_server.Clients.Tcp
use shelter_server.Clients.Tcp.{TcpClientList, clients}
use shelter_server.Clients.Udp
use shelter_server.Clients.Udp.{
  UdpClientData, UdpClientList, known_clients, same_client, zero_client,
}
use shelter_server.Server.{Server, Outcome, done, exited, fault, Succeeds}
use shelter_server.Log.{log_event}
use shelter_server.Registry.{
  add_tcp_client, remove_tcp_client, remove_tcp_found, add_udp_client, add_udp_unless,
}

log_event-tcp :
    (message : Bytes) (s : Server)
    → Succeeds (λ t. t.tcp_clients ≡ s.tcp_clients) (log_event message s)
unfolding log_event
log_event-tcp message s = ground arith

log_event-udp :
    (message : Bytes) (s : Server)
    → Succeeds (λ t. t.udp_clients ≡ s.udp_clients) (log_event message s)
unfolding log_event
log_event-udp message s = ground arith

-- A weaker fact about the state after an action.
weaken :
    {A : Type 0} (P Q : Server → Type 0) (o : Outcome A)
    → ((t : Server) → P t → Q t)
    → Succeeds P o
    → Succeeds Q o
weaken P Q (done a t) f h = f t h
weaken P Q (exited t) f h = f t h
weaken P Q fault f h = h

-- For a list within its array of five, adding a TCP client puts its descriptor behind those in the
-- list as long as fewer than five are there, and leaves a full list as it was, whether the action
-- ends normally or by `exit`. No fault is met.
pub clients-add_tcp_client :
    (fd : ℕ) (s : Server)
    → Tcp.IsValid s.tcp_clients
    → Succeeds
        (λ t. clients t.tcp_clients ≡ (
          if Tcp.has_room s.tcp_clients
          then clients s.tcp_clients ++ fd ∷ []
          else clients s.tcp_clients))
        (add_tcp_client fd s)
unfolding add_tcp_client
clients-add_tcp_client fd s v = elim (Bool-cases (Tcp.has_room s.tcp_clients)) [
  | inl room ↦ rw room (
      weaken (λ t. t.tcp_clients ≡ _) _ _
        (λ t e. ap clients e ∙ Tcp.clients-append_fd fd s.tcp_clients v room) (log_event-tcp _ _))
  | inr full ↦ rw full refl
]

remove_tcp_found-clients :
    (o : Option ℕ) (s : Server)
    → Succeeds (λ t. t.tcp_clients ≡ Tcp.remove_found o s.tcp_clients) (remove_tcp_found o s)
unfolding remove_tcp_found Tcp.remove_found
remove_tcp_found-clients none s = refl
remove_tcp_found-clients (some i) s = log_event-tcp _ _

-- For a list within its array of five, removing a TCP client takes the first entry with its
-- descriptor out of the list, if there is one, and keeps the order of the others, whether the action
-- ends normally or by `exit`. No fault is met.
pub clients-remove_tcp_client :
    (fd : ℕ) (s : Server)
    → Tcp.IsValid s.tcp_clients
    → Succeeds
        (λ t. clients t.tcp_clients ≡ erase_first (λ x. x == fd) (clients s.tcp_clients))
        (remove_tcp_client fd s)
unfolding remove_tcp_client Tcp.remove_fd
clients-remove_tcp_client fd s v =
    weaken (λ t. t.tcp_clients ≡ _) _ _
      (λ t e. ap clients e ∙ Tcp.clients-remove_fd fd s.tcp_clients v)
      (remove_tcp_found-clients (Tcp.search_fd fd s.tcp_clients) s)

added_udp :
    (client : UdpClientData) (s : Server) (o : Option ℕ)
    → Udp.IsValid s.udp_clients
    → Found zero_client (same_client client) (known_clients s.udp_clients) o
    → Succeeds
        (λ t. known_clients t.udp_clients ≡ (
          if any (same_client client) (known_clients s.udp_clients)
          then known_clients s.udp_clients
          else if Udp.has_room s.udp_clients
          then known_clients s.udp_clients ++ client ∷ []
          else known_clients s.udp_clients))
        (add_udp_unless o client s)
unfolding add_udp_unless
added_udp client s (some i) v f = rw f.2 refl
added_udp client s none v f = elim (Bool-cases (Udp.has_room s.udp_clients)) [
  | inl room ↦
      rw (f.1, room)
        (weaken (λ t. t.udp_clients ≡ _) _ _
          (λ t e. ap known_clients e ∙ Udp.known_clients-append_client client s.udp_clients v room)
          (log_event-udp _ _))
  | inr full ↦ rw (f.1, full) refl
]

-- For a list within its array of five and with no client twice, adding a UDP client puts it behind
-- those known, unless one of them is the same client to the server's test or five are known: then
-- the list stays as it was. This holds whether the action ends normally or by `exit`, and no fault
-- is met.
pub known_clients-add_udp_client :
    (client : UdpClientData) (s : Server)
    → Udp.IsValid s.udp_clients
    → Succeeds
        (λ t. known_clients t.udp_clients ≡ (
          if any (same_client client) (known_clients s.udp_clients)
          then known_clients s.udp_clients
          else if Udp.has_room s.udp_clients
          then known_clients s.udp_clients ++ client ∷ []
          else known_clients s.udp_clients))
        (add_udp_client client s)
unfolding add_udp_client
known_clients-add_udp_client client s v =
    added_udp client s (Udp.find_known client s.udp_clients) v
      (Udp.find_known-Found client s.udp_clients v)
