-- ===== src/Uncalled.antt =====
-- Functions of src/server/server.c that nothing in the program calls: handle_new_tcp_connection,
-- fifo_not_empty, log_event_json and redirect_output_to_parent.
use shelter_server.Prelude.{ℕ, Bool, true, false, Option, none, some, List}
use shelter_server.Json.{CJson}
use shelter_server.Net.{Ntop}
use shelter_server.Clients.Udp.{SockAddr}
use shelter_server.Server.{M, pure, exit_failure, ◌>>=◌}
use shelter_server.Log.{log_event}
use shelter_server.TcpHandler.{accept_tcp_connection, has}

-- The connection is in the list of clients, and select does not watch it.
unfoldable pub handle_new_tcp_connection : Ntop → Option (ℕ × SockAddr) → M (Unit {0})
handle_new_tcp_connection net accepted = do client_fd ← accept_tcp_connection net accepted; pure tt

-- What select leaves in the set, `none` for -1.
unfoldable pub fifo_not_empty : ℕ → Option (List ℕ) → M Bool
fifo_not_empty fd none = exit_failure
fifo_not_empty fd (some read_fds) = pure (has fd read_fds)

unfoldable pub log_event_json : (c : CJson) → c.Json → M (Unit {0})
log_event_json c json = log_event (c.print json)

-- Whether dup2 onto alerts_pid and onto power_outage_pid succeeds.
unfoldable pub redirect_output_to_parent : Bool → Bool → M (Unit {0})
redirect_output_to_parent false outage = exit_failure
redirect_output_to_parent true false = exit_failure
redirect_output_to_parent true true = pure tt
