-- ===== src/Processes/Kills.antt =====
-- Which processes the server sends SIGINT to, from main of src/server/main.c on.
use shelter_server.Prelude.{
  ℕ, ◌≡◌, ◌≢◌, refl, Bool, true, false, Option, none, some, List, [], ◌∷◌, ltb, Bool-cases, inl,
  inr,
}
use shelter_server.Json.{CJson}
use shelter_server.Server.{Server, Host, Effect, Outcome, done, exited, fault, Ensures}
use shelter_server.Net.{Ntop}
use shelter_server.AlertHandler.{stop_running, sigint_handler}
use shelter_server.EventLoop.{
  Sockets, Round, watch, set_host, prepare, reset_counts, watch_sockets,
  init_shared_memory_supplies, start_server, boot,
}
use shelter_server.Invariant.{Keeps, Keeps-pure, Keeps-bind}
use shelter_server.Invariant.Core.{Core, core, targets, Core-Closed}
use shelter_server.Invariant.Alerts.{update_supplies_from_json-Keeps}
use shelter_server.Invariant.Loop.{ClosedLoop, serve-Keeps}
use shelter_server.Invariant.Bounds.{any_rounds}
use shelter_server.Processes.{
  server_main, create_infection_alerts_process, create_power_outage_alert_process,
}

-- This process is not among those.
abbrev Excludes : ℕ → List ℕ → Type 0
Excludes pid [] = Unit
Excludes pid (target ∷ rest) = (target ≢ pid) × Excludes pid rest

-- No SIGINT among the effects goes to this process.
abbrev pub Spares : ℕ → List Effect → Type 0
Spares pid effects = Excludes pid (targets effects)

module _ (pid : ℕ) where
  -- The global variables name other processes, or none.
  abbrev Others : Core → Type 0
  Others k = (k.alerts_pid ≢ pid) × (k.power_outage_pid ≡ 0) × Excludes pid k.interrupted

  abbrev Spared : Server → Type 0
  Spared s = Others (core s)

  -- SIGINT goes to the process of `alerts_pid` at most.
  sigint_handler-Spared : Keeps Spared sigint_handler
  unfolding sigint_handler stop_running
  sigint_handler-Spared = record {
    at = λ s h. elim (Bool-cases (ltb 0 s.alerts_pid)) [
      | inl a ↦ rw (a, h.1) (h.0, refl, (h.0, h.2))
      | inr a ↦ rw (a, h.1) (h.0, refl, h.2)
    ];
  }

  init-Spared : (f m : Bool) → Keeps Spared (init_shared_memory_supplies f m)
  unfolding init_shared_memory_supplies
  init-Spared false m = Keeps-pure tt
  init-Spared true false = record { at = λ s h. h }
  init-Spared true true = record { at = λ s h. h }

  module _ (c : CJson) (net : Ntop) (sockets : Sockets) where
    Spared-ClosedLoop : ClosedLoop Spared (λ _. Unit) c net sockets
    unfolding watch set_host
    Spared-ClosedLoop = record {
      closed = Core-Closed Others;
      supplies_rule = update_supplies_from_json-Keeps (λ s f m h. h) c;
      watch_rule = λ fd g. record { at = λ s h. h };
      sigint_rule = sigint_handler-Spared;
      host_rule = λ host. record { at = λ s h. h };
    }

    reset-Spared : Keeps Spared reset_counts
    unfolding reset_counts
    reset-Spared = record { at = λ s h. h }

    watch_sockets-Spared : Keeps Spared (watch_sockets sockets)
    unfolding watch_sockets
    watch_sockets-Spared = record { at = λ s h. h }

    prepare-Spared : (f m : Bool) → Keeps Spared (prepare sockets f m)
    unfolding prepare
    prepare-Spared f m = Keeps-bind _ _ ((Core-Closed Others).quiet.log_rule _) λ _.
        Keeps-bind _ _ reset-Spared λ _. Keeps-bind _ _ (init-Spared f m) λ _. watch_sockets-Spared

    start_server-Spared :
        (f m : Bool) (rounds : List Round) → Keeps Spared (start_server c net sockets f m rounds)
    unfolding start_server
    start_server-Spared f m rounds =
        Keeps-bind _ _ (prepare-Spared f m) (λ _.
          serve-Keeps c net sockets Spared-ClosedLoop rounds (any_rounds c net sockets rounds))

  Spared-Spares : (o : Outcome (Unit {0})) → Ensures Spared o → Ensures (λ t. Spares pid t.trace) o
  Spared-Spares (done a t) h = h.2
  Spared-Spares (exited t) h = h.2
  Spared-Spares fault h = tt

  -- In no history that meets no fault does the server, which forks the process for infection alerts
  -- and then that for power outages, send SIGINT to any process but the first: also where SIGINT
  -- stops the server, a process of any other number, such as that for power outages, is spared.
  pub server_main-Spares :
      (c : CJson) (net : Ntop) (sockets : Sockets) (host : Host) (alerts : ℕ) (outage : Option ℕ)
      (food_given medicine_given : Bool) (rounds : List Round)
      → alerts ≢ pid
      → Ensures
          (λ t. Spares pid t.trace)
          (server_main c net sockets
            (some alerts)
            outage
            food_given
            medicine_given
            rounds
            (boot host))
  unfolding server_main create_infection_alerts_process create_power_outage_alert_process
  server_main-Spares c net sockets host alerts none f m rounds other = tt
  server_main-Spares c net sockets host alerts (some outage) f m rounds other = Spared-Spares _ (
      (start_server-Spared c net sockets f m rounds).at (record (boot host) { alerts_pid = alerts })
        (other, refl, tt))
