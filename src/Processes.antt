-- ===== src/Processes.antt =====
-- The processes of the server: main of src/server/main.c from the forks on, with
-- create_infection_alerts_process and create_power_outage_alert_process of src/server/server.c, and
-- the loop of the child for infection alerts.
pub mod Kills
pub mod AlertTexts
pub mod Fifo
use shelter_server.Prelude.{ℕ, Bytes, Bool, Option, none, some, List, [], ◌∷◌, ◌++◌}
use shelter_server.Json.{CJson}
use shelter_server.Net.{Ntop}
use shelter_server.Server.{M, pure, exit_failure, get_state, put_state, ◌>>=◌, ◌>>◌}
use shelter_server.Sensors.{
  Sensor, initiate_alert_module, update_sensor_values, check_temperature_threshold,
}
use shelter_server.EventLoop.{Sockets, Round, start_server}

-- The argument is the result of fork in the parent, `none` for -1.
unfoldable pub create_infection_alerts_process : Option ℕ → M (Unit {0})
create_infection_alerts_process none = exit_failure
create_infection_alerts_process (some pid) = do
  s ← get_state
  put_state (record s { alerts_pid = pid })

-- The result goes to a local variable of the name of the global one.
unfoldable pub create_power_outage_alert_process : Option ℕ → M (Unit {0})
create_power_outage_alert_process none = exit_failure
create_power_outage_alert_process (some pid) = pure tt

unfoldable pub server_main :
    CJson → Ntop → Sockets → Option ℕ → Option ℕ → Bool → Bool → List Round → M (Unit {0})
unfolding create_infection_alerts_process create_power_outage_alert_process start_server
server_main c net sockets alerts outage food_given medicine_given rounds = do
  create_infection_alerts_process alerts
  create_power_outage_alert_process outage
  start_server c net sockets food_given medicine_given rounds

-- One round of the child for infection alerts: the results of rand, by the number of the call, and
-- whether the FIFO opens for each sensor.
pub record Measurement : Type 0 where
  pub rand : ℕ → ℕ
  pub opens : ℕ → Bool

-- What the rounds write to the FIFO, text by text.
unfoldable pub measure : List Sensor → List Measurement → List Bytes
unfolding update_sensor_values check_temperature_threshold
measure sensors [] = []
measure sensors (m ∷ ms) =
    check_temperature_threshold m.opens 0 (update_sensor_values m.rand 0 sensors)
    ++ measure (update_sensor_values m.rand 0 sensors) ms

-- The argument `memory` is what malloc returns.
unfoldable pub infection_alerts_process : (ℕ → ℕ) → List Measurement → List Bytes
unfolding initiate_alert_module measure
infection_alerts_process memory ms = measure (initiate_alert_module memory) ms
