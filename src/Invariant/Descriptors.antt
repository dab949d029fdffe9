-- ===== src/Invariant/Descriptors.antt =====
-- The loop over the descriptors in start_server of src/server/server.c.
use shelter_server.Prelude.{
  ℕ, zero, suc, ◌+◌, ◌≤◌, ◌<◌, ◌≡◌, refl, Bool, true, some, arith, leb, Bool-cases, inl, inr,
  lt→ltb,
}
use shelter_server.Json.{CJson}
use shelter_server.Server.{Server, Host, Outcome, done, exited, fault, M, Ensures, bind_outcome}
use shelter_server.Net.{Ntop}
use shelter_server.AlertHandler.{stop_running}
use shelter_server.EventLoop.{fd_setsize, Sockets, Ready, handle_ready, watch, set_host, scan}
use shelter_server.Invariant.{Keeps, EnsuresResult}
use shelter_server.Invariant.Core.{Core-Closed}
use shelter_server.Invariant.Alerts.{sigint_handler-Keeps, update_supplies_from_json-Keeps}
use shelter_server.Invariant.Loop.{ClosedLoop, OnAnswers, handle_ready-Keeps}

-- Every descriptor that select may report lies below FD_SETSIZE.
abbrev InRange : Server → Type 0
InRange s = s.max_fd < fd_setsize

stop-InRange : Keeps InRange stop_running
unfolding stop_running
stop-InRange = record { at = λ s h. h }

module _ (c : CJson) (net : Ntop) (sockets : Sockets) where
  open c use {Json}

  watch-InRange : (fd : ℕ) → fd < fd_setsize → Keeps InRange (watch c net sockets (some fd))
  unfolding watch
  watch-InRange fd g = record { at = λ s h. ground arith }

  host-InRange : (host : Host) → Keeps InRange (set_host c net sockets host)
  unfolding set_host
  host-InRange host = record { at = λ s h. h }

  InRange-ClosedLoop : ClosedLoop InRange (λ fd. fd < fd_setsize) c net sockets
  InRange-ClosedLoop = record {
    closed = Core-Closed (λ k. k.max_fd < fd_setsize);
    supplies_rule = update_supplies_from_json-Keeps (λ s f m h. h) c;
    watch_rule = watch-InRange;
    sigint_rule = sigint_handler-Keeps (λ e. record { at = λ s h. h }) stop-InRange;
    host_rule = host-InRange;
  }

  -- The value that an action returns in the end, if it returns.
  step_result :
      (o : Outcome (Unit {0})) (f : M Bool)
      → Ensures InRange o
      → ((s : Server) → InRange s → EnsuresResult (λ b _. b ≡ true) (f s))
      → EnsuresResult (λ b _. b ≡ true) (bind_outcome o (λ _. f))
  step_result (done a s) f h g = g s h
  step_result (exited s) f h g = tt
  step_result fault f h g = tt

  -- With all descriptors below FD_SETSIZE, those that accept returns included, the loop over the
  -- descriptors ends by its own test within as many rounds as descriptors are left below
  -- FD_SETSIZE, even though the handlers may raise its bound, unless a handler ends the server by
  -- `exit` or in a fault.
  pub scan_ends :
      (fuel fd : ℕ) (ready : Ready) (s : Server)
      → fd_setsize ≤ fd + fuel
      → s.max_fd < fd_setsize
      → ((i : ℕ) → OnAnswers (λ new. new < fd_setsize) (ready i))
      → EnsuresResult (λ by_test _. by_test ≡ true) (scan c net sockets fuel fd ready s)
  unfolding scan
  scan_ends zero fd ready s enough h g = lt→ltb s.max_fd fd (omega arith)
  scan_ends (suc fuel) fd ready s enough h g = elim (Bool-cases (leb fd s.max_fd)) [
    | inl e ↦ rw e (
        step_result (handle_ready c net sockets fd (ready fd) s)
          (scan c net sockets fuel (fd + 1) ready)
          ((handle_ready-Keeps c net sockets InRange-ClosedLoop fd (ready fd) (g fd)).at s h)
          (λ t k. scan_ends fuel (fd + 1) ready t (omega arith) k g))
    | inr e ↦ rw e refl
  ]
