-- ===== src/SocketSetup/Launch.antt =====
-- The sockets that start_server of src/server/server.c sets up before its loop: cleanup_unix_socket,
-- set_tcp_socket, set_udp_socket, set_unix_socket and the FIFO.
use shelter_server.Prelude.{ℕ, ℤ, Bytes, text, true, Option, List}
use shelter_server.SocketSetup.{
  Call, unlink, open_fifo, Setup, required, attempted, return, ◌>>=◌, ◌>>◌, set_tcp_socket,
  set_udp_socket, set_unix_socket,
}
use shelter_server.EventLoop.{Sockets}

abbrev pub unix_path : Bytes
unix_path = text "/tmp/socket"

abbrev pub fifo_path : Bytes
fifo_path = text "/tmp/alerts_fifo"

module _ (answer : List Call → Call → Option ℕ) where
  -- A failure of unlink is only shown.
  unfoldable pub cleanup_unix_socket : Bytes → Setup (Unit {0})
  cleanup_unix_socket path = attempted answer (unlink path)

  unfoldable pub server_sockets : ℤ → ℤ → Setup Sockets
  unfolding cleanup_unix_socket
  server_sockets tcp_port udp_port =
      cleanup_unix_socket unix_path
      >> (set_tcp_socket answer tcp_port 5 >>= λ tcp_socket_fd.
          set_udp_socket answer udp_port >>= λ udp_socket_fd.
          set_unix_socket answer unix_path 1 true >>= λ unix_socket_fd.
          required answer (open_fifo fifo_path) >>= λ fifo_fd. return (record {
            tcp_socket_fd = tcp_socket_fd;
            udp_socket_fd = udp_socket_fd;
            unix_socket_fd = unix_socket_fd;
            fifo_fd = fifo_fd;
          }))
