-- ===== src/UnixClient.antt =====
-- The main functions of src/clients/unix_client_stream.c and src/clients/unix_client_dgram.c, and
-- what the server makes of their message. Whether socket, connect, send and sendto succeed is a
-- parameter.
use shelter_server.Prelude.{ℕ, ◌≡◌, Bytes, text, Bool, true, false, not, some, if◌then◌else◌, arith}
use shelter_server.Json.{CJson}
use shelter_server.Server.{Server, Returns}
use shelter_server.AlertHandler.{handle_unix_socket_activity}
use shelter_server.Client.{Run, ok, exit_failure, exit_success, fault}
use shelter_server.PowerOutage.Disconnection.{Extends, after_sends, told}
use shelter_server.SocketSetup.{Kind, sock_stream, sock_dgram}

-- What a client has sent: over a socket of this kind, to the socket at the path.
pub record Sent : Type 0 where
  pub kind : Kind
  pub path : Bytes
  pub message : Bytes

abbrev pub greeting : Kind → Sent
greeting kind = record {
  kind = kind;
  path = text "/tmp/socket";
  message = text "Hello from Unix client!";
}

unfoldable pub unix_client_stream : Bool → Bool → Bool → Run Sent
unix_client_stream socket_made connects sends =
    if not socket_made
    then exit_failure
    else if not connects
    then exit_failure
    else if not sends
    then exit_failure
    else ok (greeting sock_stream)

unfoldable pub unix_client_dgram : Bool → Bool → Run Sent
unix_client_dgram socket_made sends =
    if not socket_made
    then exit_failure
    else if not sends
    then exit_failure
    else ok (greeting sock_dgram)

-- What a client sends satisfies P, or it leaves by exit(EXIT_FAILURE).
abbrev pub Greets : (Sent → Type 0) → Run Sent → Type 0
Greets P (ok u) = P u
Greets P exit_failure = Unit
Greets P exit_success = ⊥
Greets P fault = ⊥

module _ (c : CJson) where
  -- Where HOME is set, the greeting of a stream client that gets through, accepted on the Unix
  -- socket, makes the server send the text of the message "disconnect" to each TCP client of its
  -- list; a client that does not get through leaves by exit(EXIT_FAILURE).
  stream_greeting-disconnects :
      (fd : ℕ) (home : Bytes) (s : Server) (socket_made connects sends : Bool)
      → s.host.home ≡ some home
      → Greets
          (λ u.
            Returns
              (Extends (after_sends c fd s))
              (handle_unix_socket_activity c true (some fd) (some u.message) s))
          (unix_client_stream socket_made connects sends)
  unfolding unix_client_stream
  stream_greeting-disconnects fd home s false connects sends h = tt
  stream_greeting-disconnects fd home s true false sends h = tt
  stream_greeting-disconnects fd home s true true false h = tt
  stream_greeting-disconnects fd home s true true true h =
      told c fd _ (text "ello from Unix client!") home s h (ground arith)
