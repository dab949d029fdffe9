-- ===== src/EventLoop/Start.antt =====
-- start_server of src/server/server.c from its arguments on, with the sockets that it sets up. What
-- share_ports_shared_memory does there is in Ports/Shared.antt.
use shelter_server.Prelude.{ℕ, ℤ, text, Bool, Option, List, []}
use shelter_server.Json.{CJson}
use shelter_server.Net.{Ntop}
use shelter_server.SocketSetup.{Call, Made, made, exited}
use shelter_server.SocketSetup.Launch.{server_sockets}
use shelter_server.Server.{M, pure, exit_failure, ◌>>=◌, ◌>>◌}
use shelter_server.Log.{log_event}
use shelter_server.EventLoop.{
  Sockets, Round, reset_counts, init_shared_memory_supplies, watch_sockets, serve,
}

-- The sockets, or the end by exit(EXIT_FAILURE).
abbrev pub obtain : Made Sockets → M Sockets
obtain (made sockets calls) = pure sockets
obtain (exited calls) = exit_failure

-- start_server from its arguments on: the sockets are set up after the first line of the log.
module _ (answer : List Call → Call → Option ℕ) (c : CJson) (net : Ntop) where
  unfoldable pub start_server_at : ℤ → ℤ → Bool → Bool → List Round → M (Unit {0})
  unfolding server_sockets reset_counts init_shared_memory_supplies watch_sockets serve
  start_server_at tcp_port udp_port food_given medicine_given rounds = do
    log_event (text "Server started")
    reset_counts
    sockets ← obtain (server_sockets answer tcp_port udp_port [])
    init_shared_memory_supplies food_given medicine_given
    watch_sockets sockets
    serve c net sockets rounds
