-- ===== src/Connections/Loop.antt =====
-- The connections over the loop of start_server.
use shelter_server.Prelude.{
  ℕ, zero, suc, ◌+◌, ◌≡◌, refl, Bool, true, false, Option, none, some, List, [], ◌∷◌, ◌==◌, leb,
  arith, Bool-cases, inl, inr, if◌then◌else◌,
}
use shelter_server.Json.{CJson}
use shelter_server.Net.{Ntop}
use shelter_server.Server.{Server, Outcome, done, exited, fault, M, pure}
use shelter_server.TcpHandler.{has}
use shelter_server.AlertHandler.{sigint_handler}
use shelter_server.EventLoop.{
  Sockets, Answers, Ready, Round, selected, signalled, select_failed, select_interrupted,
  host_changed, reported, fd_setsize, dispatch, handle_ready, scan, pass, set_host, round, serve,
}
use shelter_server.Connections.{View, Matches, view, Seen, Safe, Goes}
use shelter_server.Connections.Effects.{Ends-bind, seen_quiet, ends, sigint_handler-Seen}
use shelter_server.Connections.Steps.{Rest}
use shelter_server.Connections.Accept.{accept_new-Goes}
use shelter_server.Connections.Handlers.{
  handle_unix-Goes, check_alerts-Goes, handle_udp-Goes, handle_tcp-Goes,
}

abbrev pub descriptors : Sockets → List ℕ
descriptors s = s.fifo_fd ∷ s.unix_socket_fd ∷ s.udp_socket_fd ∷ s.tcp_socket_fd ∷ []

module _ (sockets : List ℕ) where
  weaker :
      {A : Type 0} (Q Q' : View → Type 0) (o : Outcome A)
      → ((v : View) → Q v → Q' v)
      → Goes sockets Q o
      → Goes sockets Q' o
  weaker Q Q' (done a s) w h = λ fresh. (w (view s) (h fresh).0, (h fresh).1)
  weaker Q Q' (exited s) w h = h
  weaker Q Q' fault w h = tt

  Goes-if :
      {A : Type 0} (Q : View → Type 0) (b : Bool) (m n : M A) (s : Server)
      → Goes sockets Q (m s)
      → (b ≡ false → Goes sockets Q (n s))
      → Goes sockets Q ((if b then m else n) s)
  Goes-if Q true m n s h k = h
  Goes-if Q false m n s h k = k refl

  next : (read : List ℕ) (fd : ℕ) (v : View) → Rest sockets read fd v → Rest sockets read (fd + 1) v
  next read fd v (m, later) = (m, λ n le r. later n (omega arith) r)

  safe : (Q : View → Type 0) (s : Server) → Seen sockets Q s → Safe sockets s
  safe Q s h fresh = (h fresh).1

module _ (c : CJson) (net : Ntop) (socks : Sockets) where
  abbrev own : List ℕ
  own = descriptors socks

  dispatch-Goes :
      (read : List ℕ) (fd : ℕ) (a : Answers) (s : Server)
      → has fd read ≡ true
      → Seen own (Rest own read fd) s
      → Goes own (Rest own read (fd + 1)) (dispatch c net socks fd a s)
  unfolding dispatch
  dispatch-Goes read fd a s r h =
      let R : View → Type 0 = Rest own read fd in
      let R' : View → Type 0 = Rest own read (fd + 1) in
      Goes-if own R' (fd == socks.tcp_socket_fd) _ _ s
        (weaker own R R' _ (next own read fd)
          (accept_new-Goes own read fd c net socks a.accepted_tcp s h))
        (λ tcp.
          Goes-if own R' (fd == socks.udp_socket_fd) _ _ s
            (weaker own R R' _ (next own read fd)
              (handle_udp-Goes own read fd c net socks.udp_socket_fd a.datagram s h))
            (λ udp.
              Goes-if own R' (fd == socks.unix_socket_fd) _ _ s
                (weaker own R R' _ (next own read fd)
                  (handle_unix-Goes own read fd c a.accepted_unix a.received s h))
                (λ unix.
                  Goes-if own R' (fd == socks.fifo_fd) _ _ s
                    (weaker own R R' _ (next own read fd)
                      (check_alerts-Goes own read fd c a.fifo s h))
                    (λ fifo. handle_tcp-Goes own read fd (ground arith) c net a.received s r h))))

  idle :
      (read : List ℕ) (fd : ℕ) (s : Server)
      → Seen own (Rest own read fd) s
      → Seen own (Rest own read (fd + 1)) s
  idle read fd s h fresh = (next own read fd (view s) (h fresh).0, (h fresh).1)

  one_ready :
      (read : List ℕ) (fd : ℕ) (o : Option Answers) (s : Server)
      → has fd read ≡ true
      → Seen own (Rest own read fd) s
      → Goes own (Rest own read (fd + 1)) (handle_ready c net socks fd o s)
  unfolding handle_ready
  one_ready read fd none s r h = idle read fd s h
  one_ready read fd (some a) s r h = dispatch-Goes read fd a s r h

  handle_ready-Goes :
      (read : List ℕ) (fd : ℕ) (ready : Ready) (s : Server)
      → Seen own (Rest own read fd) s
      → Goes own (Rest own read (fd + 1)) (handle_ready c net socks fd (reported read ready fd) s)
  unfolding handle_ready
  handle_ready-Goes read fd ready s h = elim (Bool-cases (has fd read)) [
    | inl e ↦ rw e (one_ready read fd (ready fd) s e h)
    | inr e ↦ rw e (idle read fd s h)
  ]

  abbrev Settled : View → Type 0
  Settled v = Matches own [] v

  scan-Goes :
      (read : List ℕ) (ready : Ready) (fuel fd : ℕ) (s : Server)
      → Seen own (Rest own read fd) s
      → Goes own Settled (scan c net socks fuel fd (reported read ready) s)
  unfolding scan
  scan-Goes read ready zero fd s h = λ fresh. ((h fresh).0.0, (h fresh).1)
  scan-Goes read ready (suc fuel) fd s h =
      Goes-if own Settled (leb fd s.max_fd) _ (pure true) s
        (Ends-bind (λ _. Seen own (Rest own read (fd + 1))) _ (Safe own)
          (handle_ready c net socks fd (reported read ready fd) s) _
          (handle_ready-Goes read fd ready s h) (λ _ t p. scan-Goes read ready fuel (fd + 1) t p))
        (λ _ fresh. ((h fresh).0.0, (h fresh).1))

  pass-Goes :
      (ready : Ready) (s : Server)
      → Seen own Settled s
      → Goes own Settled (pass c net socks ready s)
  unfolding pass
  pass-Goes ready s h =
      Ends-bind (λ _. Seen own Settled) _ (Safe own)
        (scan c net socks fd_setsize socks.tcp_socket_fd (reported s.master_fds ready) s) _
        (scan-Goes s.master_fds ready fd_setsize socks.tcp_socket_fd s
          (λ fresh. (((h fresh).0, λ n le r. r), (h fresh).1)))
        (λ _ t p. p)

  sigint-Goes : (s : Server) → Seen own Settled s → Goes own Settled (sigint_handler s)
  sigint-Goes s h =
      ends own Settled Settled (sigint_handler s) (λ v q. q)
        ((sigint_handler-Seen own Settled).at s h)

  round-Goes :
      (r : Round) (s : Server) → Seen own Settled s → Goes own Settled (round c net socks r s)
  unfolding round set_host
  round-Goes (selected ready) s h = pass-Goes ready s h
  round-Goes (signalled ready) s h =
      Ends-bind (λ _. Seen own Settled) _ (Safe own) (pass c net socks ready s) _
        (pass-Goes ready s h) (λ _ t p. sigint-Goes t p)
  round-Goes select_failed s h = safe own Settled s h
  round-Goes select_interrupted s h =
      Ends-bind (λ _. Seen own Settled) _ (Safe own) (sigint_handler s) _ (sigint-Goes s h)
        (λ _ t p. safe own Settled t p)
  round-Goes (host_changed host) s h = h

  pub serve-Goes :
      (rounds : List Round) (s : Server)
      → Seen own Settled s
      → Goes own Settled (serve c net socks rounds s)
  unfolding serve
  serve-Goes [] s h = h
  serve-Goes (r ∷ rounds) s h =
      Goes-if own Settled s.running _ _ s
        (Ends-bind (λ _. Seen own Settled) _ (Safe own) (round c net socks r s) _ (round-Goes r s h)
          (λ _ t p. serve-Goes rounds t p))
        (λ _. ends own Settled Settled _ (λ v q. q) (((seen_quiet own Settled).log_rule _).at s h))
