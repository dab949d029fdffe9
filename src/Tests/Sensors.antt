-- ===== src/Tests/Sensors.antt =====
-- The theorems on the sensors at concrete temperatures.
use shelter_server.Prelude.{◌%◌, ◌≤◌, ◌≡◌, refl, text, some, ◌++◌, ◌==◌, ltb, arith, if◌then◌else◌}
use shelter_server.Emergency.{count_entry}
use shelter_server.Server.{done}
use shelter_server.AlertHandler.{check_alerts}
use shelter_server.AlertHandler.Delivery.{alerted}
use shelter_server.Sensors.{get_temperature, alert_text, threshold_temp}
use shelter_server.Sensors.Alerts.{
  north, east, sensor_name, entry_name, get_temperature_lem, check_alerts-alert_text,
  check_alerts-two_alerts,
}
use shelter_server.Tests.{server}

-- A normal temperature of 38.9 degrees.
get_temperature_lem_example :
    (350 ≤ get_temperature 5 39)
    × (get_temperature 5 39 ≤ 430)
    × (ltb threshold_temp (get_temperature 5 39)
        ≡ (if 5 == 0 then ltb 0 (39 % 51) else ltb 30 (39 % 40)))
get_temperature_lem_example = get_temperature_lem 5 39

check_alerts-alert_text_example :
    check_alerts (some (some (alert_text (sensor_name east) 389))) server
    ≡ done tt (record (alerted (text "/root") (alert_text (sensor_name east) 389) server) {
      entry_alerts_count = count_entry (entry_name east) server.entry_alerts_count;
    })
check_alerts-alert_text_example =
    check_alerts-alert_text east 389 (text "/root") server
      (record { home_set = refl; directory = refl; opens = refl }) (omega arith)

check_alerts-two_alerts_example :
    check_alerts
      (some (some (alert_text (sensor_name north) 381 ++ alert_text (sensor_name east) 389)))
      server
    ≡ done tt
        (record (alerted
          (text "/root")
          (alert_text (sensor_name north) 381 ++ alert_text (sensor_name east) 389)
          server) { entry_alerts_count = count_entry (text "NORTH") server.entry_alerts_count })
check_alerts-two_alerts_example =
    check_alerts-two_alerts east 381 389 (text "/root") server
      (record { home_set = refl; directory = refl; opens = refl }) (omega arith) (omega arith)
