-- ===== src/Invariant/Loop.antt =====
-- The loop of start_server under a predicate of its actions, with a condition on the descriptors
-- that accept returns.
use shelter_server.Prelude.{
  ℕ, zero, suc, ◌+◌, true, Option, none, some, List, [], ◌∷◌, Bool-cases, inl, inr,
}
use shelter_server.Json.{CJson}
use shelter_server.Clients.Udp.{SockAddr}
use shelter_server.Server.{Server, Host}
use shelter_server.Net.{Ntop}
use shelter_server.Summary.{update_supplies_from_json}
use shelter_server.TcpHandler.{has}
use shelter_server.AlertHandler.{sigint_handler}
use shelter_server.EventLoop.{
  fd_setsize, Sockets, Answers, Ready, Round, selected, signalled, select_failed,
  select_interrupted, host_changed, watch, accept_new, dispatch, handle_ready, scan, pass, set_host,
  round, serve, reported,
}
use shelter_server.Invariant.{
  Keeps, Keeps-pure, Keeps-exit, Keeps-bind, Keeps-get_state, Keeps-if, rules, Keeps-bind-Gives,
}
use shelter_server.Invariant.Closed.{Closed}
use shelter_server.Invariant.Events.{
  handle_tcp_socket_activity-Keeps, handle_udp_socket_activity-Keeps, udp_update-Keeps,
  accept_tcp_connection-Gives, IsAccepted,
}
use shelter_server.Invariant.Alerts.{
  check_alerts-Keeps, send_to_all_tcp_clients-Keeps, handle_unix_socket_activity-Keeps,
}

-- A condition on the descriptor that accept returns, in the answers to a handler, in all answers
-- of a call of select, and in a history.
abbrev pub OnAccepted : (ℕ → Type 0) → Option (ℕ × SockAddr) → Type 0
OnAccepted G none = Unit
OnAccepted G (some (fd, addr)) = G fd

abbrev pub OnAnswers : (ℕ → Type 0) → Option Answers → Type 0
OnAnswers G none = Unit
OnAnswers G (some a) = OnAccepted G a.accepted_tcp

abbrev pub OnRound : (ℕ → Type 0) → Round → Type 0
OnRound G (selected ready) = (fd : ℕ) → OnAnswers G (ready fd)
OnRound G (signalled ready) = (fd : ℕ) → OnAnswers G (ready fd)
OnRound G select_failed = Unit
OnRound G select_interrupted = Unit
OnRound G (host_changed host) = Unit

abbrev pub OnRounds : (ℕ → Type 0) → List Round → Type 0
OnRounds G [] = Unit
OnRounds G (r ∷ rs) = OnRound G r × OnRounds G rs

pub reported-OnAnswers :
    (G : ℕ → Type 0) (fds : List ℕ) (ready : Ready) (fd : ℕ)
    → OnAnswers G (ready fd)
    → OnAnswers G (reported fds ready fd)
reported-OnAnswers G fds ready fd g = elim (Bool-cases (has fd fds)) [
  | inl e ↦ rw e g
  | inr e ↦ rw e tt
]

-- What the loop does beside the handlers.
pub record ClosedLoop (P : Server → Type 0) (G : ℕ → Type 0) (c : CJson) (net : Ntop)
    (sockets : Sockets) : Type 0 where
  pub closed : Closed P
  pub supplies_rule : (json : c.Json) → Keeps P (update_supplies_from_json c json)
  pub watch_rule : (fd : ℕ) → G fd → Keeps P (watch c net sockets (some fd))
  pub sigint_rule : Keeps P sigint_handler
  pub host_rule : (host : Host) → Keeps P (set_host c net sockets host)

module _ {P : Server → Type 0} {G : ℕ → Type 0} (c : CJson) (net : Ntop) (sockets : Sockets)
    (loop : ClosedLoop P G c net sockets) where
  open loop use {closed, supplies_rule, watch_rule, sigint_rule, host_rule}

  watch_accepted :
      (accepted : Option (ℕ × SockAddr)) (fd : Option ℕ)
      → OnAccepted G accepted
      → IsAccepted accepted fd
      → Keeps P (watch c net sockets fd)
  watch_accepted none fd g e = rw e (unfold watch in Keeps-pure tt)
  watch_accepted (some (fd', addr)) fd g e = rw e (watch_rule fd' g)

  accept_new-Keeps :
      (accepted : Option (ℕ × SockAddr))
      → OnAccepted G accepted
      → Keeps P (accept_new c net sockets accepted)
  unfolding accept_new
  accept_new-Keeps accepted g =
      Keeps-bind-Gives _ _ (accept_tcp_connection-Gives closed net accepted)
        (λ fd e. watch_accepted accepted fd g e)

  dispatch-Keeps :
      (fd : ℕ) (a : Answers) → OnAccepted G a.accepted_tcp → Keeps P (dispatch c net sockets fd a)
  unfolding dispatch
  dispatch-Keeps fd a g = Keeps-if _ _ _ (accept_new-Keeps a.accepted_tcp g) (
      Keeps-if _ _ _
        (handle_udp_socket_activity-Keeps c net closed.quiet
          (udp_update-Keeps c net closed.quiet supplies_rule) _ a.datagram)
        (Keeps-if _ _ _ (handle_unix_socket_activity-Keeps closed c a.accepted_unix a.received) (
          Keeps-if _ _ _
            (check_alerts-Keeps closed.quiet (send_to_all_tcp_clients-Keeps closed.sent_rule)
              a.fifo)
            (handle_tcp_socket_activity-Keeps c closed supplies_rule net fd a.received))))

  pub handle_ready-Keeps :
      (fd : ℕ) (a : Option Answers) → OnAnswers G a → Keeps P (handle_ready c net sockets fd a)
  unfolding handle_ready
  handle_ready-Keeps fd none g = Keeps-pure tt
  handle_ready-Keeps fd (some a) g = dispatch-Keeps fd a g

  pub scan-Keeps :
      (fuel fd : ℕ) (ready : Ready)
      → ((fd : ℕ) → OnAnswers G (ready fd))
      → Keeps P (scan c net sockets fuel fd ready)
  unfolding scan
  scan-Keeps zero fd ready g = search rules
  scan-Keeps (suc fuel) fd ready g = Keeps-bind _ _ Keeps-get_state λ s.
      Keeps-if _ _ _
        (Keeps-bind _ _ (handle_ready-Keeps fd (ready fd) (g fd))
          (λ _. scan-Keeps fuel (fd + 1) ready g))
        (Keeps-pure true)

  pass-Keeps :
      (ready : Ready) → ((fd : ℕ) → OnAnswers G (ready fd)) → Keeps P (pass c net sockets ready)
  unfolding pass
  pass-Keeps ready g = Keeps-bind _ _ Keeps-get_state λ s.
      Keeps-bind _ _
        (scan-Keeps fd_setsize sockets.tcp_socket_fd (reported s.master_fds ready)
          (λ fd. reported-OnAnswers G s.master_fds ready fd (g fd)))
        (λ _. Keeps-pure tt)

  round-Keeps : (r : Round) → OnRound G r → Keeps P (round c net sockets r)
  unfolding round
  round-Keeps (selected ready) g = pass-Keeps ready g
  round-Keeps (signalled ready) g = Keeps-bind _ _ (pass-Keeps ready g) (λ _. sigint_rule)
  round-Keeps select_failed g = Keeps-exit
  round-Keeps select_interrupted g = Keeps-bind _ _ sigint_rule (λ _. Keeps-exit)
  round-Keeps (host_changed host) g = host_rule host

  pub serve-Keeps : (rounds : List Round) → OnRounds G rounds → Keeps P (serve c net sockets rounds)
  unfolding serve
  serve-Keeps [] g = Keeps-pure tt
  serve-Keeps (r ∷ rs) g = Keeps-bind _ _ Keeps-get_state λ s.
      Keeps-if _ _ _ (Keeps-bind _ _ (round-Keeps r g.0) (λ _. serve-Keeps rs g.1))
        (closed.quiet.log_rule _)
