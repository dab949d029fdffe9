-- ===== src/EventLoop.antt =====
-- start_server of src/server/server.c: the start of the loop, one pass over the descriptors that
-- select found ready, and the loop while the server runs.
pub mod Shutdown
pub mod Start
pub mod Started
use shelter_server.Prelude.{
  ℕ, zero, suc, ◌+◌, Bytes, text, Bool, true, false, Option, none, some, ◌==◌, ltb, leb, List, [],
  ◌∷◌, if◌then◌else◌,
}
use shelter_server.Json.{CJson}
use shelter_server.Supplies.{FoodSupply, MedicineSupply, no_food, no_medicine}
use shelter_server.Emergency.{initialize_entry_alerts_count, no_emergency}
use shelter_server.Clients.Tcp
use shelter_server.Clients.Udp
use shelter_server.Clients.Udp.{SockAddr}
use shelter_server.Server.{M, Server, Host, pure, exit_failure, get_state, put_state, ◌>>=◌, ◌>>◌}
use shelter_server.Log.{log_event}
use shelter_server.Net.{Ntop}
use shelter_server.TcpHandler.{accept_tcp_connection, handle_tcp_socket_activity, fd_set, has}
use shelter_server.UdpHandler.{Datagram, handle_udp_socket_activity}
use shelter_server.AlertHandler.{check_alerts, handle_unix_socket_activity, sigint_handler}

-- The descriptors that the server opens before the loop.
pub record Sockets : Type 0 where
  pub tcp_socket_fd : ℕ
  pub udp_socket_fd : ℕ
  pub unix_socket_fd : ℕ
  pub fifo_fd : ℕ

-- What the calls of one handler are answered: accept on the TCP socket, recv or recvfrom, accept
-- on the Unix socket, open and read of the FIFO.
pub record Answers : Type 0 where
  pub accepted_tcp : Option (ℕ × SockAddr)
  pub accepted_unix : Option ℕ
  pub received : Option Bytes
  pub datagram : Option Datagram
  pub fifo : Option (Option Bytes)

-- The descriptors that select reports, with the answers to their handlers.
abbrev pub Ready : Type 0
Ready = ℕ → Option Answers

abbrev pub larger : ℕ → ℕ → ℕ
larger a b = if ltb b a then a else b

-- The segment of shared memory after init_shared_memory_supplies, by whether shmget and shmat gave
-- it. Where the food segment fails, the medicine segment is not set up.
unfoldable pub init_shared_memory_supplies : Bool → Bool → M (Unit {0})
init_shared_memory_supplies false medicine_given = pure tt
init_shared_memory_supplies true false = do
  s ← get_state
  put_state (record s { food = some no_food })
init_shared_memory_supplies true true = do
  s ← get_state
  put_state (record s { food = some no_food; medicine = some no_medicine })

unfoldable pub reset_counts : M (Unit {0})
reset_counts = do
  s ← get_state
  put_state (record s { entry_alerts_count = initialize_entry_alerts_count })

-- FD_ZERO and FD_SET of the four descriptors, and the highest of them.
unfoldable pub watch_sockets : Sockets → M (Unit {0})
watch_sockets sockets = do
  s ← get_state
  put_state (record s {
    max_fd =
        larger (larger (larger sockets.tcp_socket_fd sockets.udp_socket_fd) sockets.fifo_fd)
          sockets.unix_socket_fd;
    master_fds = fd_set sockets.fifo_fd (
        fd_set sockets.unix_socket_fd
          (fd_set sockets.udp_socket_fd (fd_set sockets.tcp_socket_fd [])));
  })

-- The state from the first line of start_server up to the loop.
unfoldable pub prepare : Sockets → Bool → Bool → M (Unit {0})
unfolding init_shared_memory_supplies reset_counts watch_sockets
prepare sockets food_given medicine_given = do
  log_event (text "Server started")
  reset_counts
  init_shared_memory_supplies food_given medicine_given
  watch_sockets sockets

-- Select leaves in a set those of its descriptors that are ready.
abbrev pub reported : List ℕ → Ready → Ready
reported read_fds ready fd = if has fd read_fds then ready fd else none

-- FD_SETSIZE: every descriptor in a set of select lies below it.
abbrev pub fd_setsize : ℕ
fd_setsize = 1024

-- What happens around one call of select: it reports descriptors; it reports them and SIGINT
-- comes while they are handled; it fails; SIGINT interrupts it, and it fails with EINTR; or the
-- host answers differently from then on.
pub data Round : Type 0 where
  selected : Ready → Round
  signalled : Ready → Round
  select_failed : Round
  select_interrupted : Round
  host_changed : Host → Round

module _ (c : CJson) (net : Ntop) (sockets : Sockets) where
  open sockets use {tcp_socket_fd, udp_socket_fd, unix_socket_fd, fifo_fd}

  -- FD_SET of a new connection, and the highest descriptor.
  unfoldable pub watch : Option ℕ → M (Unit {0})
  watch none = pure tt
  watch (some new_tcp_client_fd) = do
    s ← get_state
    put_state (record s {
      master_fds = fd_set new_tcp_client_fd s.master_fds;
      max_fd = larger new_tcp_client_fd s.max_fd;
    })

  unfoldable pub accept_new : Option (ℕ × SockAddr) → M (Unit {0})
  unfolding accept_tcp_connection watch
  accept_new accepted = do
    new_tcp_client_fd ← accept_tcp_connection net accepted
    watch new_tcp_client_fd

  -- The chain of tests on one ready descriptor.
  unfoldable pub dispatch : ℕ → Answers → M (Unit {0})
  unfolding accept_new
  dispatch fd a =
      if fd == tcp_socket_fd
      then accept_new a.accepted_tcp
      else if fd == udp_socket_fd
      then handle_udp_socket_activity c net udp_socket_fd a.datagram
      else if fd == unix_socket_fd
      then handle_unix_socket_activity c true a.accepted_unix a.received
      else if fd == fifo_fd
      then check_alerts a.fifo
      else handle_tcp_socket_activity c net fd a.received

  unfoldable pub handle_ready : ℕ → Option Answers → M (Unit {0})
  unfolding dispatch
  handle_ready fd none = pure tt
  handle_ready fd (some a) = dispatch fd a

  -- `for (fd = tcp_socket_fd; fd <= max_fd; fd++)`, on fuel; `false` where the fuel ran out. The
  -- handlers may raise `max_fd` while the loop runs.
  unfoldable pub scan : ℕ → ℕ → Ready → M Bool
  unfolding handle_ready
  scan zero fd ready = do s ← get_state; pure (ltb s.max_fd fd)
  scan (suc fuel) fd ready = do
    s ← get_state
    if leb fd s.max_fd then (do handle_ready fd (ready fd); scan fuel (fd + 1) ready) else pure true

  unfoldable pub pass : Ready → M (Unit {0})
  unfolding scan
  pass ready = do
    s ← get_state
    _ ← scan fd_setsize tcp_socket_fd (reported s.master_fds ready)
    pure tt

  unfoldable pub set_host : Host → M (Unit {0})
  set_host h = do s ← get_state; put_state (record s { host = h })

  unfoldable pub round : Round → M (Unit {0})
  unfolding pass sigint_handler set_host
  round (selected ready) = pass ready
  round (signalled ready) = do pass ready; sigint_handler
  round select_failed = exit_failure
  round select_interrupted = do sigint_handler; exit_failure
  round (host_changed h) = set_host h

  -- The loop over a history of rounds; an empty history is a server that still waits.
  unfoldable pub serve : List Round → M (Unit {0})
  unfolding round
  serve [] = pure tt
  serve (r ∷ rs) = do
    s ← get_state
    if s.running then (do round r; serve rs) else log_event (text "Server turned off")

  -- From the start of start_server on, over a history of rounds.
  unfoldable pub start_server : Bool → Bool → List Round → M (Unit {0})
  unfolding prepare serve
  start_server food_given medicine_given rounds = do
    prepare sockets food_given medicine_given
    serve rounds

-- The process before start_server: the global variables as C sets them, and no segment attached.
abbrev pub boot : Host → Server
boot host = record {
  running = true;
  tcp_clients = Tcp.no_clients;
  udp_clients = Udp.no_clients;
  entry_alerts_count = initialize_entry_alerts_count;
  emergency_info = no_emergency;
  food = none;
  medicine = none;
  master_fds = [];
  max_fd = 0;
  alerts_pid = 0;
  power_outage_pid = 0;
  host = host;
  trace = [];
}
