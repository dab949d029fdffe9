-- ===== src/EventLoop/Shutdown.antt =====
-- The end of the loop by SIGINT.
use shelter_server.Prelude.{ℕ, ◌≡◌, false, List, [], ◌∷◌, ◌++◌, map, ltb, if◌then◌else◌}
use shelter_server.Server.{Server, killed}

-- The pids that fork gave to a parent.
abbrev pub started : List ℕ → List ℕ
started [] = []
started (pid ∷ pids) = if ltb 0 pid then pid ∷ started pids else started pids

-- A state where SERVER_RUNNING is not set, and SIGINT was sent to the process for infection alerts and
-- then to that for power outages, each if its pid is known.
abbrev pub interrupted : Server → Server
interrupted s = record s {
  running = false;
  trace = map killed (started (s.power_outage_pid ∷ s.alerts_pid ∷ [])) ++ s.trace;
}

abbrev Stopped : Server → Type 0
Stopped s = s.running ≡ false
