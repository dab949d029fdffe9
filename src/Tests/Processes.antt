-- ===== src/Tests/Processes.antt =====
-- The theorems on the start of the server, its child processes and the power outage at concrete
-- data.
use shelter_server.Prelude.{
  ℕ, ◌+◌, ◌<◌, pos, ◌≡◌, refl, text, decimal, true, none, some, List, [], ◌∷◌, length, arith,
}
use shelter_server.Json.{CJson}
use shelter_server.Json.Tree.{node, object, field, end, trees, append}
use shelter_server.Client.{ok, ◌>>=◌}
use shelter_server.Client.CommandLine.{port_option}
use shelter_server.Server.{Ensures, Returns}
use shelter_server.AlertHandler.{handle_unix_socket_activity}
use shelter_server.TcpHandler.{received_string}
use shelter_server.TcpClient.Session.{handle_server_messages, receive_json, told_to_leave}
use shelter_server.EventLoop.{selected, select_interrupted, boot}
use shelter_server.Ports.CommandLine.{
  server_ports, both_ports, share, tcp_client_port, udp_client_port, server_ports-clients,
}
use shelter_server.PowerOutage.{
  Attempt, AreSpaced, failure_message, power_outage_process, power_outage_process-AreSpaced,
}
use shelter_server.PowerOutage.Disconnection.{Extends, after_sends, unix_message-disconnects}
use shelter_server.Processes.{Measurement, server_main, infection_alerts_process}
use shelter_server.Processes.Kills.{Spares, server_main-Spares}
use shelter_server.Processes.AlertTexts.{AreAlerts, infection_alerts_process-AreAlerts}
use shelter_server.Processes.Fifo.{the_server, the_child, interleave, at_start}
use shelter_server.Processes.Fifo.Delivery.{Delivers, schedule, fifo_delivery}
use shelter_server.Processes.Fifo.Early.{early_open}
use shelter_server.Tests.{json, net, sockets, host, server, word_tree, all_ready}

server_ports-clients_example :
    ((server_ports (λ i. 40000 + i) (both_ports 5000 5001) >>= λ p.
    tcp_client_port [] (share none p))
      ≡ ok (pos 5000))
    × ((server_ports (λ i. 40000 + i) (both_ports 5000 5001) >>= λ p.
          udp_client_port [] (share none p))
        ≡ ok (pos 5001))
    × (tcp_client_port (port_option (decimal 5000) ∷ []) none ≡ ok (pos 5000))
    × (udp_client_port (port_option (decimal 5001) ∷ []) none ≡ ok (pos 5001))
server_ports-clients_example =
    server_ports-clients (λ i. 40000 + i) 5000 5001 none none (omega arith) (omega arith)

abbrev attempts : List Attempt
attempts =
    record { random = 7; socket_made = true; connects = true; sends = true }
    ∷ record { random = 11; socket_made = true; connects = true; sends = true }
    ∷ []

power_outage_process-AreSpaced_example :
    AreSpaced 1 (power_outage_process attempts)
    × (length (power_outage_process attempts) ≡ length attempts)
power_outage_process-AreSpaced_example =
    power_outage_process-AreSpaced attempts (refl, refl, refl, (refl, refl, refl, tt))

-- A JSON library that reads every text as the message "disconnect".
abbrev disconnecting : CJson
disconnecting =
    trees (λ s. some (node object (field (text "message") (word_tree (text "disconnect")) end)))
      (λ j. text "{}")

-- The message of the power outage process.
unix_message-disconnects_example :
    Returns
      (Extends (after_sends disconnecting 9 server))
      (handle_unix_socket_activity disconnecting true (some 9) (some failure_message) server)
    × (handle_server_messages disconnecting true 77 (none ∷ some (text "{}") ∷ [])
        ≡ told_to_leave 77)
unfolding trees append received_string handle_server_messages receive_json
unix_message-disconnects_example =
    unix_message-disconnects disconnecting 9 69
      (text "lectricity failure. Disconnecting all clients.") (text "/root") server true true 77 123
      (125 ∷ []) (none ∷ []) [] refl (omega arith) refl (omega arith) refl refl

server_main-Spares_example :
    Ensures
      (λ t. Spares 501 t.trace)
      (server_main json net sockets
        (some 500)
        (some 501)
        true
        true
        (selected all_ready ∷ select_interrupted ∷ [])
        (boot host))
server_main-Spares_example =
    server_main-Spares 501 json net sockets host 500 (some 501) true true
      (selected all_ready ∷ select_interrupted ∷ []) (omega arith)

abbrev measurements : List Measurement
measurements = record { rand = λ i. i; opens = λ i. true } ∷ []

infection_alerts_process-AreAlerts_example :
    AreAlerts (infection_alerts_process (λ i. 0) measurements)
infection_alerts_process-AreAlerts_example =
    infection_alerts_process-AreAlerts (λ i. 0) measurements

-- The child has its third turn, to no avail, before the server opens the FIFO.
fifo_delivery_example :
    (n : ℕ) × Delivers n
      ((n, text "NORTH ENTRY, ALERT, 38.4°C ") ∷ (n, text "WEST ENTRY, ALERT, 40.1°C ") ∷ [])
      (interleave true (schedule 3 (the_child ∷ the_server ∷ the_child ∷ [])) (
        at_start
          (some 4)
          5
          (text "NORTH ENTRY, ALERT, 38.4°C " ∷ text "WEST ENTRY, ALERT, 40.1°C " ∷ [])))
fifo_delivery_example =
    fifo_delivery true (some 4) 5 3
      (text "NORTH ENTRY, ALERT, 38.4°C " ∷ text "WEST ENTRY, ALERT, 40.1°C " ∷ [])
      (the_child ∷ the_server ∷ the_child ∷ []) (omega arith)

stale_older : (n : ℕ) → some 4 ≡ some n → n < 5
stale_older n e = ground arith

-- A FIFO of an earlier run, which the server opens at once.
early_open_example :
    (interleave true
      (schedule 0 (the_child ∷ the_child ∷ the_child ∷ the_server ∷ the_child ∷ []))
      (at_start (some 4) 5 (text "NORTH ENTRY, ALERT, 38.4°C " ∷ []))).written
    ≡ []
early_open_example =
    early_open (some 4) 5 0 (text "NORTH ENTRY, ALERT, 38.4°C " ∷ [])
      (the_child ∷ the_child ∷ the_child ∷ the_server ∷ the_child ∷ []) (omega arith) stale_older
