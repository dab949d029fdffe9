-- ===== src/Invariant/Alerts.antt =====
-- The alerts, the Unix socket, SIGINT and an update of the supplies under a predicate of their actions.
use shelter_server.Prelude.{ℕ, Bytes, true, Option, none, some, List, [], ◌∷◌}
use shelter_server.Json.{CJson}
use shelter_server.Server.{
  Server, sent, killed, emit, Ensures, deref, put_state, bind_outcome, ◌>>=◌,
}
use shelter_server.Supplies.{FoodSupply, MedicineSupply, update_food_at, update_medicine_at}
use shelter_server.Registry.{
  send_each, send_to_each, send_to_all_tcp_clients, send_to_all_udp_clients,
}
use shelter_server.Clients.Tcp.{clients}
use shelter_server.Clients.Udp.{UdpClientData}
use shelter_server.Summary.{update_supplies_from_json}
use shelter_server.AlertHandler.{
  process_alert, check_alerts, unix_string, handle_power_failure, handle_unix_socket_activity,
  stop_running, sigint_handler,
}
use shelter_server.Invariant.{Keeps, Keeps-pure, Keeps-bind, Keeps-get_state, Keeps-crash, rules}
use shelter_server.Invariant.Closed.{Quiet, Closed}

pub sigint_handler-Keeps :
    {P : Server → Type 0}
    → ((pid : ℕ) → Keeps P (emit (killed pid)))
    → Keeps P stop_running
    → Keeps P sigint_handler
unfolding sigint_handler
sigint_handler-Keeps emits stop = search (rules, emits) depth 12

-- An update of the supplies writes the two segments alone.
module _ {P : Server → Type 0}
    (stores : (s : Server) (food : Option FoodSupply) (medicine : Option MedicineSupply)
      → P s
      → P (record s { food = food; medicine = medicine }))
    (c : CJson) where
  stored-Keeps :
      (s : Server)
      → P s
      → (f : Option (Option FoodSupply)) (m : Option (Option MedicineSupply))
      → Ensures P (
          bind_outcome (deref f s) (λ food.
            deref m >>= λ medicine. put_state (record s { food = food; medicine = medicine })))
  stored-Keeps s h none m = tt
  stored-Keeps s h (some f) none = tt
  stored-Keeps s h (some f) (some m) = stores s f m h

  pub update_supplies_from_json-Keeps : (json : c.Json) → Keeps P (update_supplies_from_json c json)
  unfolding update_supplies_from_json
  update_supplies_from_json-Keeps json = record {
    at = λ s h.
        stored-Keeps s h (update_food_at c s.food json) (update_medicine_at c s.medicine json);
  }

pub send_each-Keeps :
    {P : Server → Type 0}
    → ((fd : ℕ) (message : Bytes) → Keeps P (emit (sent fd message)))
    → (fds : List ℕ) (message : Bytes) → Keeps P (send_each fds message)
unfolding send_each
send_each-Keeps sends [] message = Keeps-pure tt
send_each-Keeps sends (fd ∷ fds) message =
    Keeps-bind _ _ (sends _ _) (λ _. send_each-Keeps sends fds message)

pub send_to_all_tcp_clients-Keeps :
    {P : Server → Type 0}
    → ((fd : ℕ) (message : Bytes) → Keeps P (emit (sent fd message)))
    → (message : Bytes) → Keeps P (send_to_all_tcp_clients message)
unfolding send_to_all_tcp_clients
send_to_all_tcp_clients-Keeps sends message =
    Keeps-bind _ _ Keeps-get_state (λ s. send_each-Keeps sends (clients s.tcp_clients) message)

module _ {P : Server → Type 0} (quiet : Quiet P)
    (broadcast : (message : Bytes) → Keeps P (send_to_all_tcp_clients message)) where
  open quiet use {sent_to_rule, log_rule, emergency_rule, count_rule}

  send_to_each-Keeps :
      (cs : List UdpClientData) (message : Bytes) → Keeps P (send_to_each cs message)
  unfolding send_to_each
  send_to_each-Keeps [] message = Keeps-pure tt
  send_to_each-Keeps (c ∷ cs) message =
      Keeps-bind _ _ (sent_to_rule _ _ _) (λ _. send_to_each-Keeps cs message)

  send_to_all_udp_clients-Keeps : (message : Bytes) → Keeps P (send_to_all_udp_clients message)
  unfolding send_to_all_udp_clients
  send_to_all_udp_clients-Keeps message = search (rules, send_to_each-Keeps)

  process_alert-Keeps : (message : Bytes) → Keeps P (process_alert message)
  unfolding process_alert
  process_alert-Keeps message =
      search (rules, log_rule, emergency_rule, count_rule, broadcast, send_to_all_udp_clients-Keeps)
        depth 12

  pub check_alerts-Keeps : (fifo : Option (Option Bytes)) → Keeps P (check_alerts fifo)
  unfolding check_alerts
  check_alerts-Keeps none = Keeps-pure tt
  check_alerts-Keeps (some none) = Keeps-pure tt
  check_alerts-Keeps (some (some [])) = Keeps-pure tt
  check_alerts-Keeps (some (some (b ∷ bs))) = search (rules, process_alert-Keeps) depth 12

  unix_string-Keeps : (bytes : Bytes) → Keeps P (unix_string bytes)
  unfolding unix_string
  unix_string-Keeps bytes = search (rules, Keeps-crash)

  module _ (c : CJson) where
    pub handle_power_failure-Keeps :
        (received : Option Bytes) → Keeps P (handle_power_failure c received)
    unfolding handle_power_failure
    handle_power_failure-Keeps none = Keeps-pure tt
    handle_power_failure-Keeps (some []) = Keeps-pure tt
    handle_power_failure-Keeps (some (b ∷ bs)) =
        search (rules, log_rule, unix_string-Keeps, broadcast) depth 12

module _ {P : Server → Type 0} (closed : Closed P) (c : CJson) where
  open closed use {quiet, opened_rule, sent_rule, closed_rule}

  power_failure-Keeps : (received : Option Bytes) → Keeps P (handle_power_failure c received)
  power_failure-Keeps received =
      handle_power_failure-Keeps quiet (send_to_all_tcp_clients-Keeps sent_rule) c received

  pub handle_unix_socket_activity-Keeps :
      (accepted : Option ℕ) (received : Option Bytes)
      → Keeps P (handle_unix_socket_activity c true accepted received)
  unfolding handle_unix_socket_activity
  handle_unix_socket_activity-Keeps none received = Keeps-pure tt
  handle_unix_socket_activity-Keeps (some fd) received =
      search (rules, opened_rule, closed_rule, power_failure-Keeps) depth 12
