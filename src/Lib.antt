-- ===== src/Lib.antt =====
-- The weather shelter server: a server process for TCP, UDP and Unix socket clients, which keeps the
-- supplies of a refuge, passes on alerts, and answers requests in JSON; and its clients.
--
-- The parts of the program and the files that model them:
--
-- - src/server/server.c is one process with global variables. Server.antt has them as the record
--   `Server`, with what the system answers (`Host`), the effects so far (`Effect`: sends, lines of
--   the log, closes, kills), and the actions `M` on that state. An action ends normally, by
--   exit(EXIT_FAILURE), or in a fault, which is a read or write that C leaves undefined: through
--   NULL, past the end of a buffer, or of bytes that were never written.
-- - Clients.antt and its children: TCPClientList and UDPClientList of include/server.h as arrays
--   with counters, and the loops of add_tcp_client, remove_tcp_client, add_udp_client and
--   remove_udp_client. Registry.antt: those functions on the server's state, with what they log,
--   and send_to_all_tcp_clients and send_to_all_udp_clients.
-- - Supplies.antt: lib/suppliesData/src/supplies_module.c and convert_supplies_to_json. The amounts
--   are C `int`s of 32 bits, whose sums wrap.
-- - Emergency.antt: EntryAlertsCount and EmergencyInfo, detect_entry, get_alerts_for_entry,
--   update_emergency_info and the readers of its two arrays.
-- - Log.antt: log_event and get_home_dir. Net.antt: get_tcp_client_ip and get_udp_client_info.
--   Summary.antt: create_summary_json and send_json_to_tcp_client.
-- - TcpHandler.antt: accept_tcp_connection, receive_tcp_json, check_tcp_clients_messages and
--   handle_tcp_socket_activity. UdpHandler.antt: receive_udp_json, check_udp_clients_messages and
--   send_json_to_udp_client. AlertHandler.antt: check_alerts, handle_unix_socket_activity and
--   sigint_handler.
-- - EventLoop.antt: start_server, from its first line on. The loop is followed over a history of
--   rounds: what select reports in each, with the answers to the handlers' system calls, a failure
--   of select, a SIGINT, or a change of the host. SIGINT comes after a pass over the descriptors or
--   while select waits; EventLoop/Shutdown.antt has it between two descriptors of a pass too. Select
--   reports watched descriptors only. `start_server` takes the sockets as given; EventLoop/Start.antt
--   has `start_server_at`, which sets them up for its ports first.
-- - Connections.antt and its children: the TCP connections over the history of the effects, with the
--   descriptors that accept returned and that were not closed since.
-- - Invariant.antt and its children: invariants of actions, a rule for each way to build one
--   (`Closed` and `ClosedLoop` hold what a predicate needs of the basic actions), and the
--   invariants of the whole loop.
-- - Ports.antt and its children: parse_command_line_arguments and set_ports of src/server/server.c,
--   the choice of ports in src/server/main.c, and the ports in shared memory, which
--   share_ports_shared_memory writes and get_port of the clients reads.
-- - Client.antt and its children: what src/clients/tcp_client.c and src/clients/udp_client.c share,
--   and how a client's code ends (`Run`): parse_command_line_args, get_os_id, the name of the host
--   (a fault wherever the file opens, as it is read from an array that has ended), and the end of
--   the loop over the user's answers.
-- - TcpClient.antt and its children: src/clients/tcp_client.c. Connection.antt has its start and
--   do_connect, Login.antt authenticate, Menu.antt one round of handle_user_input, Session.antt the
--   loop and receive_json, Encoding.antt encode_utf8, Process.antt main.
-- - UdpClient.antt and its children: src/clients/udp_client.c. Connection.antt has its start,
--   Menu.antt one round of handle_user_input and the sending, Session.antt the loop and the
--   reception, Process.antt main.
-- - PowerOutage.antt and its child: lib/emergNotif/src/emergNotif.c and the process that sends its
--   message. Processes.antt and its children: the forks of src/server/main.c, and the process for
--   infection alerts. Processes/Fifo.antt has that process and the server in any order of their calls
--   on the FIFO, where unlink, mkfifo and open do what POSIX says, and the FIFO has room for a write.
-- - Sensors.antt and its child: lib/alertInfection and initiateAlertModule of src/server/server.c.
-- - UnixClient.antt: src/clients/unix_client_stream.c and src/clients/unix_client_dgram.c.
-- - Uncalled.antt: the functions of src/server/server.c that nothing calls.
-- - SocketSetup.antt and its children: lib/socketSetup/src/socket_setup.c, and get_available_port and
--   the set-up of the sockets in start_server of src/server/server.c, with the system's answers as a
--   parameter. Ports.antt takes the answers of get_available_port as given.
-- - Prelude.antt and its children: numbers, lists, C strings and `int`s. Tests.antt and its
--   children: concrete data, and the theorems applied to them.
--
-- Code outside the program is a parameter: the JSON library lib/cJSON (`CJson` in Json.antt, with
-- what the program relies on as laws; Json/Tree.antt is an instance), inet_ntop (`Ntop`),
-- getopt, inet_pton and getaddrinfo, and the answers of the system.
--
-- Fuel: the loop over the descriptors runs on fuel FD_SETSIZE, 1024, since select takes no
-- descriptor at or above that number; `scan` returns `false` if the fuel runs out. All other
-- loops are structural on a list or on the number of rounds that the counter leaves.
--
-- Not modelled: what is printed on the terminal; other processes that write to the supplies' shared
-- memory; a send or sendto that takes part of the text; SIGPIPE at a send to a peer that has gone;
-- the mocks and unit tests of the server; and lib/cJSON, which is another project's.
pub mod Prelude
pub mod Json
pub mod Clients
pub mod Supplies
pub mod Emergency
pub mod Server
pub mod Log
pub mod Registry
pub mod Net
pub mod Summary
pub mod UdpClient
pub mod Uncalled
pub mod UnixClient
pub mod TcpHandler
pub mod UdpHandler
pub mod AlertHandler
pub mod EventLoop
pub mod Connections
pub mod Invariant
pub mod Ports
pub mod Client
pub mod TcpClient
pub mod PowerOutage
pub mod Processes
pub mod SocketSetup
pub mod Tests
pub mod Sensors
