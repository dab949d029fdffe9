-- ===== src/Connections/Accept.antt =====
-- A new connection: accept_tcp_connection, and FD_SET in start_server.
use shelter_server.Prelude.{
  ℕ, ◌≡◌, refl, Option, none, some, List, ◌∷◌, ◌||◌, leb, length, arith, Bool-cases, inl, inr,
}
use shelter_server.Json.{CJson}
use shelter_server.Net.{Ntop}
use shelter_server.Clients.Tcp
use shelter_server.Clients.Tcp.{
  clients, max_clients, search_fd, remove_found, remove_found-IsValid, remove_fd, clients-remove_fd,
}
use shelter_server.Clients.Udp.{SockAddr}
use shelter_server.Server.{
  Server, connected, opened, Outcome, done, exited, fault, bind_outcome, deref, pure,
}
use shelter_server.Log.{log_event}
use shelter_server.Registry.{add_tcp_client}
use shelter_server.TcpHandler.{accept_tcp_connection, connection_message}
use shelter_server.EventLoop.{Sockets, watch, accept_new}
use shelter_server.Invariant.{Keeps-deref}
use shelter_server.Connections.{View, view, Seen, Safe, Ends, Goes}
use shelter_server.Connections.Effects.{Ends-bind, seen_quiet, ends}
use shelter_server.Connections.Steps.{
  Rest, New, NewTcp, Added, open_step, add_step, full_step, watch_step,
}

module _ (sockets read : List ℕ) (i : ℕ) where
  -- After accept has returned the descriptor.
  pub opens :
      (fd : ℕ) (s : Server)
      → Seen sockets (Rest sockets read i) s
      → Seen sockets (New sockets read i fd) (record s { trace = opened fd ∷ s.trace })
  opens fd s h (new, apart, fresh) =
      (open_step sockets read i fd (view s) (h fresh).0 new apart _ (λ e. e), (h fresh).1)

  connects :
      (fd : ℕ) (s : Server)
      → Seen sockets (Rest sockets read i) s
      → Seen sockets (NewTcp sockets read i fd) (record s { trace = connected fd ∷ s.trace })
  connects fd s h (new, apart, fresh) = (
    (
      open_step sockets read i fd (view s) (h fresh).0 new apart
          (leb max_clients (length (view s).open_now) || (view s).crowded) (λ e. ground arith),
      λ e. ground arith,
    ),
    (h fresh).1,
  )

  added :
      (fd : ℕ) (s : Server)
      → Seen sockets (NewTcp sockets read i fd) s
      → Goes sockets (Added sockets read i fd) (add_tcp_client fd s)
  unfolding add_tcp_client
  added fd s h = elim (Bool-cases (Tcp.has_room s.tcp_clients)) [
    | inl room ↦ rw room (
        ends sockets (Added sockets read i fd) (Added sockets read i fd) _ (λ v q. q)
          (((seen_quiet sockets (Added sockets read i fd)).log_rule _).at _
            (λ fresh. (add_step sockets read i fd (view s) (h fresh).0.0 room, (h fresh).1))))
    | inr full ↦
        rw full (λ fresh. (full_step sockets read i fd (view s) (h fresh).0 full, (h fresh).1))
  ]

  listed :
      (fd : ℕ) (o : Outcome (Unit {0}))
      → Goes sockets (Added sockets read i fd) o
      → Ends
          (λ v t. (v ≡ some fd) × Seen sockets (Added sockets read i fd) t)
          (Safe sockets)
          (bind_outcome o (λ _. pure (some fd)))
  listed fd (done a s) h = (refl, h)
  listed fd (exited s) h = h
  listed fd fault h = tt

  accepted :
      (net : Ntop) (fd : ℕ) (addr : SockAddr) (s : Server)
      → Seen sockets (Rest sockets read i) s
      → Ends
          (λ v t. (v ≡ some fd) × Seen sockets (Added sockets read i fd) t)
          (Safe sockets)
          (accept_tcp_connection net (some (fd, addr)) s)
  unfolding accept_tcp_connection
  accepted net fd addr s h =
      let N : View → Type 0 = NewTcp sockets read i fd in
      let A : View → Type 0 = Added sockets read i fd in
      let s1 : Server = record s { trace = connected fd ∷ s.trace } in
      Ends-bind (λ _. Seen sockets N) _ (Safe sockets)
        (deref (connection_message net addr.family addr) s1) _
        (ends sockets N N _ (λ v q. q)
          ((Keeps-deref (connection_message net addr.family addr)).at s1 (connects fd s h)))
        (λ message t p.
          Ends-bind (λ _. Seen sockets N) _ (Safe sockets) (log_event message t) _
            (ends sockets N N _ (λ v q. q) (((seen_quiet sockets N).log_rule message).at t p))
            (λ _ u q. listed fd (add_tcp_client fd u) (added fd u q)))

  watched :
      (c : CJson) (net : Ntop) (socks : Sockets) (fd : ℕ) (o : Option ℕ) (s : Server)
      → o ≡ some fd
      → Seen sockets (Added sockets read i fd) s
      → Goes sockets (Rest sockets read i) (watch c net socks o s)
  unfolding watch
  watched c net socks fd o s e h =
      rw e (λ fresh. (watch_step sockets read i fd (view s) (h fresh).0, (h fresh).1))

  pub accept_new-Goes :
      (c : CJson) (net : Ntop) (socks : Sockets) (o : Option (ℕ × SockAddr)) (s : Server)
      → Seen sockets (Rest sockets read i) s
      → Goes sockets (Rest sockets read i) (accept_new c net socks o s)
  unfolding accept_new accept_tcp_connection watch
  accept_new-Goes c net socks none s h = h
  accept_new-Goes c net socks (some (fd, addr)) s h =
      Ends-bind _ _ (Safe sockets) (accept_tcp_connection net (some (fd, addr)) s) _
        (accepted net fd addr s h) (λ v t p. watched c net socks fd v t p.0 p.1)
