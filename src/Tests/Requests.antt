-- ===== src/Tests/Requests.antt =====
-- The theorems on requests, alerts and the loop at concrete states.
use shelter_server.Prelude.{
  ◌≡◌, refl, subst, text, bytes_eq, same_name, replicate, true, false, none, some, [], ◌∷◌, arith,
}
use shelter_server.Server.{Server, Ensures, Returns, fault, bind_outcome, done}
use shelter_server.TcpHandler.{check_tcp_clients_messages, received_string}
use shelter_server.TcpHandler.Updates.{any_client_updates, IsUpdated}
use shelter_server.UdpHandler.{check_udp_clients_messages}
use shelter_server.UdpHandler.Authorization.{only_admin_updates, is_admin_update}
use shelter_server.AlertHandler.{check_alerts}
use shelter_server.AlertHandler.LongAlert.{summary_after_long_alert}
use shelter_server.Summary.{create_summary_json}
use shelter_server.AlertHandler.Delivery.{check_alerts_lem, alerted}
use shelter_server.EventLoop.{selected, signalled, select_failed, scan, start_server, boot}
use shelter_server.Invariant.{EnsuresResult}
use shelter_server.Invariant.Data.{Inv}
use shelter_server.Invariant.Bounds.{start_server-Inv}
use shelter_server.Invariant.Descriptors.{scan_ends}
use shelter_server.Tests.{
  json, net, sockets, host, server, food, medicine, update_request, word_tree, update_text,
  status_text, datagram, all_ready, connection,
}
use shelter_server.Json.Tree.{trees, find}

start_server-Inv_example : Ensures Inv (
    start_server json net sockets true true
      (selected connection ∷ signalled all_ready ∷ select_failed ∷ [])
      (boot host))
start_server-Inv_example =
    start_server-Inv json net sockets host true true
      (selected connection ∷ signalled all_ready ∷ select_failed ∷ [])

only_admin_updates_example :
    Ensures
      (λ t. (t.food ≡ server.food) × (t.medicine ≡ server.medicine))
      (check_udp_clients_messages json net 4 (some (datagram status_text)) server)
unfolding trees update_request find received_string bytes_eq same_name
only_admin_updates_example =
    only_admin_updates json net 4 (datagram status_text) server
      (λ j e. subst (λ o. elim o [ none ↦ Unit | some k ↦ is_admin_update json k ≡ false ]) e refl)

any_client_updates_example :
    Returns
      (IsUpdated json net update_request food medicine)
      (check_tcp_clients_messages json net 7 (some update_text) server)
unfolding trees update_request find received_string bytes_eq same_name
any_client_updates_example =
    any_client_updates json net 7 123 _ update_request (word_tree (text "update")) server
      (text "/root") food medicine refl refl refl (omega arith) refl refl refl

scan_ends_example :
    EnsuresResult (λ by_test _. by_test ≡ true) (scan json net sockets 1021 3 all_ready server)
scan_ends_example =
    scan_ends json net sockets 1021 3 all_ready server (omega arith) (omega arith)
      (λ i. omega arith)

check_alerts_lem_example :
    check_alerts (some (some (text "NORTH, ALERT, 38.5"))) server
    ≡ done tt (alerted (text "/root") (text "NORTH, ALERT, 38.5") server)
check_alerts_lem_example =
    check_alerts_lem 78 _ (text "/root") server
      (record { home_set = refl; directory = refl; opens = refl }) (ground arith) (omega arith)

-- The process for infection alerts was started.
abbrev with_child : Server
with_child = record server { alerts_pid = 31 }

summary_after_long_alert_example :
    bind_outcome
      (check_alerts (some (some (replicate 120 65))) server)
      (λ _. create_summary_json json)
    ≡ fault
summary_after_long_alert_example =
    summary_after_long_alert json 65 (replicate 119 65) (text "/root") server
      (record { home_set = refl; directory = refl; opens = refl }) (ground arith) (ground arith)
      (omega arith) (omega arith)
