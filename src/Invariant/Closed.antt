-- ===== src/Invariant/Closed.antt =====
-- What the handlers' actions on the state have to keep, for the handlers to keep it.
use shelter_server.Prelude.{ℕ, Bytes, Option}
use shelter_server.Clients.Udp.{UdpClientData, SockAddr}
use shelter_server.Server.{Server, connected, opened, sent, sent_to, closed, emit}
use shelter_server.Log.{log_event}
use shelter_server.Registry.{add_tcp_client, remove_tcp_client, add_udp_client}
use shelter_server.Summary.{set_emergency}
use shelter_server.TcpHandler.{unwatch}
use shelter_server.AlertHandler.{count_detected}
use shelter_server.Invariant.{Keeps}

-- The actions that leave the TCP connections alone.
pub record Quiet (P : Server → Type 0) : Type 0 where
  pub sent_to_rule :
      (fd : ℕ) (addr : SockAddr) (message : Bytes) → Keeps P (emit (sent_to fd addr message))
  pub log_rule : (message : Bytes) → Keeps P (log_event message)
  pub add_udp_rule : (client : UdpClientData) → Keeps P (add_udp_client client)
  pub emergency_rule : (event : Bytes) → Keeps P (set_emergency event)
  pub count_rule : (entry : Option Bytes) → Keeps P (count_detected entry)

pub record Closed (P : Server → Type 0) : Type 0 where
  pub quiet : Quiet P
  pub connected_rule : (fd : ℕ) → Keeps P (emit (connected fd))
  pub opened_rule : (fd : ℕ) → Keeps P (emit (opened fd))
  pub sent_rule : (fd : ℕ) (message : Bytes) → Keeps P (emit (sent fd message))
  pub closed_rule : (fd : ℕ) → Keeps P (emit (closed fd))
  pub add_tcp_rule : (fd : ℕ) → Keeps P (add_tcp_client fd)
  pub remove_tcp_rule : (fd : ℕ) → Keeps P (remove_tcp_client fd)
  pub unwatch_rule : (fd : ℕ) → Keeps P (unwatch fd)
