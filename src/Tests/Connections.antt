-- ===== src/Tests/Connections.antt =====
-- The theorems on the TCP connections at a history with a connection, a request and its end.
use shelter_server.Prelude.{
  ℕ, ◌+◌, pos, Option, arith, refl, true, none, some, List, [], ◌∷◌, ◌==◌, if◌then◌else◌, inl,
  same_name,
}
use shelter_server.Log.{log_event}
use shelter_server.Registry.{add_tcp_client, remove_tcp_client}
use shelter_server.TcpHandler.{handle_tcp_socket_activity}
use shelter_server.Json.Tree.{trees}
use shelter_server.Net.{get_tcp_client_ip}
use shelter_server.Supplies.{convert_supplies_to_json}
use shelter_server.Server.{Server, Outcome, done, exited, fault}
use shelter_server.EventLoop.{Sockets, Ready, Round, selected, start_server, boot}
use shelter_server.SocketSetup
use shelter_server.SocketSetup.{
  Call, socket, setsockopt, bind, getsockname, inet_ntop, listen, close, unlink, open_fifo, Made,
  made,
}
use shelter_server.SocketSetup.Launch.{server_sockets}
use shelter_server.SocketSetup.Opened.{IsSetUp}
use shelter_server.EventLoop.Start.{start_server_at}
use shelter_server.EventLoop.Started.{start_server_at-Matches}
use shelter_server.Connections.{Matches, view, SentToOpen}
use shelter_server.Connections.Loop.{descriptors}
use shelter_server.Connections.Start.{start_server-SentToOpen}
use shelter_server.Tests.{json, net, sockets, host, answers, connection, status_text}

-- A status request of the client, then the end of its connection.
abbrev request : Ready
request = λ fd. if fd == 7 then some (record answers { received = some status_text }) else none

abbrev hang_up : Ready
hang_up = λ fd. if fd == 7 then some (record answers { received = none }) else none

abbrev history : List Round
history = selected connection ∷ selected request ∷ selected hang_up ∷ selected connection ∷ []

abbrev reached : Outcome (Unit {0}) → Server
reached (done a s) = s
reached (exited s) = s
reached fault = boot host

start_server-SentToOpen_example :
    SentToOpen (reached (start_server json net sockets true true history (boot host))).trace
unfolding start_server log_event add_tcp_client handle_tcp_socket_activity trees same_name
    get_tcp_client_ip convert_supplies_to_json remove_tcp_client
start_server-SentToOpen_example =
    start_server-SentToOpen json net sockets host true true history _ (inl refl)
      (refl, refl, (refl, refl, tt))

-- A system that gives out 3, 4, 5 and 6, and then the port 9.
abbrev given_out : List Call → ℕ
given_out [] = 0
given_out (socket domain kind ∷ calls) = given_out calls + 1
given_out (setsockopt fd name value ∷ calls) = given_out calls
given_out (bind fd address ∷ calls) = given_out calls
given_out (getsockname fd ∷ calls) = given_out calls
given_out (inet_ntop ∷ calls) = given_out calls
given_out (listen fd backlog ∷ calls) = given_out calls
given_out (close fd ∷ calls) = given_out calls
given_out (unlink path ∷ calls) = given_out calls
given_out (open_fifo path ∷ calls) = given_out calls + 1

abbrev system : List Call → Call → Option ℕ
system calls c = some (3 + given_out calls)

abbrev calls_of : Made Sockets → List Call
calls_of (made s calls) = calls
calls_of (SocketSetup.exited calls) = calls

start_server_at-Matches_example :
    IsSetUp system
      (pos 5000)
      (pos 6000)
      sockets
      (calls_of (server_sockets system (pos 5000) (pos 6000) []))
    × Matches (descriptors sockets) [] (
        view (
          reached
            (start_server_at system json net (pos 5000) (pos 6000) true true history (boot host))))
unfolding start_server_at start_server SocketSetup.set_tcp_socket SocketSetup.set_udp_socket
    SocketSetup.set_unix_socket log_event add_tcp_client handle_tcp_socket_activity trees same_name
    get_tcp_client_ip convert_supplies_to_json remove_tcp_client
start_server_at-Matches_example =
    start_server_at-Matches system json net (pos 5000) (pos 6000) host true true history _ sockets _
      refl
      (
        (λ fd h. ground arith),
        (
          tt,
          (
            tt,
            (
              (λ fd h. ground arith),
              (
                tt,
                (
                  tt,
                  (
                    (λ fd h. ground arith),
                    (tt, (tt, (tt, (tt, (tt, ((λ fd h. ground arith), (tt, tt))))))),
                  ),
                ),
              ),
            ),
          ),
        ),
      )
      refl (refl, refl, (refl, refl, tt))
