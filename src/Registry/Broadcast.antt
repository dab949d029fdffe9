-- ===== src/Registry/Broadcast.antt =====
-- Whom send_to_all_tcp_clients and send_to_all_udp_clients send a message to.
use mathlib.Core.List.{reverse, reverse-cons}
use shelter_server.Prelude.{ℕ, ◌≡◌, refl, ap, ◌∙◌, Bytes, List, [], ◌∷◌, ◌++◌, map, append_assoc}
use shelter_server.Clients.Tcp.{clients}
use shelter_server.Clients.Udp.{UdpClientData, known_clients}
use shelter_server.Server.{Server, Effect, sent, sent_to, done}
use shelter_server.Registry.{
  send_each, send_to_each, send_to_all_tcp_clients, send_to_all_udp_clients,
}

abbrev pub send_of : Bytes → ℕ → Effect
send_of message fd = sent fd message

abbrev pub send_to_of : Bytes → UdpClientData → Effect
send_to_of message c = sent_to c.sockfd c.client_addr message

-- The effects of a loop over a list, the latest first, in front of those before it.
push_all {ℓ} :
    {A : Type ℓ} (f : A → Effect) (x : A) (xs : List A) (before : List Effect)
    → reverse (map f xs) ++ f x ∷ before ≡ reverse (map f (x ∷ xs)) ++ before
push_all f x xs before = rw (reverse-cons (f x) (map f xs), append_assoc)

send_each_lem :
    (fds : List ℕ) (message : Bytes) (s : Server)
    → send_each fds message s
      ≡ done tt (record s { trace = reverse (map (send_of message) fds) ++ s.trace })
unfolding send_each
send_each_lem [] message s = refl
send_each_lem (fd ∷ fds) message s =
    send_each_lem fds message (record s { trace = sent fd message ∷ s.trace })
    ∙ ap (λ t. done tt (record s { trace = t })) (push_all (send_of message) fd fds s.trace)

send_to_each_lem :
    (cs : List UdpClientData) (message : Bytes) (s : Server)
    → send_to_each cs message s
      ≡ done tt (record s { trace = reverse (map (send_to_of message) cs) ++ s.trace })
unfolding send_to_each
send_to_each_lem [] message s = refl
send_to_each_lem (c ∷ cs) message s =
    send_to_each_lem cs message
      (record s { trace = sent_to c.sockfd c.client_addr message ∷ s.trace })
    ∙ ap (λ t. done tt (record s { trace = t })) (push_all (send_to_of message) c cs s.trace)

-- A message for all TCP clients is sent once to each client of the list, in the list's order, and
-- nothing else of the state changes.
pub send_to_all_tcp_clients_lem :
    (message : Bytes) (s : Server)
    → send_to_all_tcp_clients message s
      ≡ done tt
          (record s { trace = reverse (map (send_of message) (clients s.tcp_clients)) ++ s.trace })
unfolding send_to_all_tcp_clients
send_to_all_tcp_clients_lem message s = send_each_lem (clients s.tcp_clients) message s

-- A message for all UDP clients is sent once to the address of each known client, in the list's
-- order, and nothing else of the state changes.
pub send_to_all_udp_clients_lem :
    (message : Bytes) (s : Server)
    → send_to_all_udp_clients message s
      ≡ done tt (record s {
        trace = reverse (map (send_to_of message) (known_clients s.udp_clients)) ++ s.trace;
      })
unfolding send_to_all_udp_clients
send_to_all_udp_clients_lem message s = send_to_each_lem (known_clients s.udp_clients) message s
