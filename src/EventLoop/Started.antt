-- ===== src/EventLoop/Started.antt =====
-- The server on the sockets that start_server of src/server/server.c sets up for its ports.
use shelter_server.Prelude.{ℕ, ℤ, ◌≡◌, refl, ◌∙◌, text, Bool, Option, List, [], subst}
use shelter_server.Json.{CJson}
use shelter_server.Net.{Ntop}
use shelter_server.SocketSetup.{Call, made}
use shelter_server.SocketSetup.Opened.{AllNew, On, Ready, IsSetUp, server_sockets-Ready}
use shelter_server.Server.{Server, Host, M, Outcome, done, exited as left, fault, bind_outcome}
use shelter_server.EventLoop.{
  Sockets, Round, prepare, reset_counts, init_shared_memory_supplies, watch_sockets, start_server,
  boot,
}
use shelter_server.Log.{log_event}
use shelter_server.Connections.{Matches, view, IsFresh}
use shelter_server.Connections.Start.{start_server-Matches}
use shelter_server.SocketSetup.Launch.{server_sockets}
use shelter_server.EventLoop.Start.{start_server_at}
use shelter_server.Connections.Loop.{descriptors}

bind_flat :
    {A B C : Type 0} (o : Outcome A) (f : A → M B) (g : B → M C) (h : A → M C)
    → ((a : A) (s : Server) → bind_outcome (f a s) g ≡ h a s)
    → bind_outcome (bind_outcome o f) g ≡ bind_outcome o h
bind_flat (done a s) f g h e = e a s
bind_flat (left s) f g h e = refl
bind_flat fault f g h e = refl

module _ (answer : List Call → Call → Option ℕ) (c : CJson) (net : Ntop) where
  at_ports :
      (tcp_port udp_port : ℤ) (f m : Bool) (rounds : List Round) (s : Server) (socks : Sockets)
      (calls : List Call)
      → server_sockets answer tcp_port udp_port [] ≡ made socks calls
      → start_server c net socks f m rounds s
        ≡ start_server_at answer c net tcp_port udp_port f m rounds s
  unfolding start_server_at start_server prepare reset_counts watch_sockets
  at_ports tcp_port udp_port f m rounds s socks calls e = rw e (
      bind_flat (log_event (text "Server started") s) _ _ _
        (λ _ s'. bind_flat (init_shared_memory_supplies f m _) _ _ _ (λ _ u. refl)))

  -- If the set-up of the sockets for the two ports succeeds, with no descriptor given out that was in
  -- use, and accept never returns one that is in use either, then the server has a TCP socket that
  -- waits for connections at its TCP port, a UDP socket at its UDP port and a Unix socket that waits at
  -- /tmp/socket, under four distinct descriptors with that of the FIFO; and between the rounds of every
  -- history it watches exactly these four and its open connections, and its list holds distinct ones
  -- of those: all of them, if no TCP connection was accepted while five or more were open.
  pub start_server_at-Matches :
      (tcp_port udp_port : ℤ) (host : Host) (f m : Bool) (rounds : List Round) (t : Server)
      (socks : Sockets) (calls : List Call)
      → server_sockets answer tcp_port udp_port [] ≡ made socks calls
      → AllNew answer calls
      → start_server_at answer c net tcp_port udp_port f m rounds (boot host) ≡ done tt t
      → IsFresh (descriptors socks) t.trace
      → IsSetUp answer tcp_port udp_port socks calls × Matches (descriptors socks) [] (view t)
  start_server_at-Matches tcp_port udp_port host f m rounds t socks calls e new ends fresh = (
    subst (On answer (Ready answer tcp_port udp_port)) e
        (server_sockets-Ready answer tcp_port udp_port) new,
    start_server-Matches c net socks host f m rounds t
        (at_ports tcp_port udp_port f m rounds (boot host) socks calls e ∙ ends) fresh,
  )
