-- ===== src/Sensors.antt =====
-- lib/alertInfection/src/alertInfection.c, and initiateAlertModule of src/server/server.c: the
-- sensors at the entries, which the child process for infection alerts reads.
-- A temperature is a number of tenths of a degree: each is the `float` k / 10 of such a number k, which
-- "%.1f" prints with its last digit and which exceeds the threshold of 38.0 when k exceeds 380.
pub mod Alerts
use shelter_server.Prelude.{
  ℕ, suc, ◌+◌, ◌/◌, ◌%◌, Bytes, text, decimal, Bool, true, false, List, [], ◌∷◌, ◌++◌, ◌==◌, ltb,
  if◌then◌else◌,
}

pub record Sensor : Type 0 where
  pub name : Bytes
  pub temperature : ℕ

-- The temperatures in the memory that malloc returns are those of the argument.
unfoldable pub initiate_alert_module : (ℕ → ℕ) → List Sensor
initiate_alert_module memory =
    record { name = text "NORTH ENTRY"; temperature = memory 0 }
    ∷ record { name = text "SOUTH ENTRY"; temperature = memory 1 }
    ∷ record { name = text "WEST ENTRY"; temperature = memory 2 }
    ∷ record { name = text "EAST ENTRY"; temperature = memory 3 }
    ∷ []

-- The arguments are the results of the two calls of rand. Since RAND_MAX is an `int`, the first
-- one over RAND_MAX is below 10 ^ -11 only when it is zero.
unfoldable pub get_temperature : ℕ → ℕ → ℕ
get_temperature first second = if first == 0 then second % 51 + 380 else second % 40 + 350

-- `rand i` is the result of call number `i`.
unfoldable pub update_sensor_values : (ℕ → ℕ) → ℕ → List Sensor → List Sensor
unfolding get_temperature
update_sensor_values rand i [] = []
update_sensor_values rand i (sensor ∷ sensors) =
    record sensor { temperature = get_temperature (rand i) (rand (i + 1)) }
    ∷ update_sensor_values rand (i + 2) sensors

-- "%.1f°C ", with the sign for the degree in UTF-8.
unfoldable pub celsius : ℕ → Bytes
unfolding decimal
celsius temperature =
    decimal (temperature / 10) ++ 46 ∷ (48 + temperature % 10) ∷ 194 ∷ 176 ∷ text "C "

-- sprintf with "%s, ALERT, %.1f°C ".
unfoldable pub alert_text : Bytes → ℕ → Bytes
unfolding celsius
alert_text name temperature = name ++ (text ", ALERT, " ++ celsius temperature)

-- What is written to the FIFO, which may not open.
unfoldable pub send_alert : Bool → ℕ → Bytes → List Bytes
unfolding alert_text
send_alert false temperature name = []
send_alert true temperature name = alert_text name temperature ∷ []

-- THRESHOLD_TEMP
abbrev pub threshold_temp : ℕ
threshold_temp = 380

unfoldable pub check_temperature_threshold : (ℕ → Bool) → ℕ → List Sensor → List Bytes
unfolding send_alert
check_temperature_threshold opens i [] = []
check_temperature_threshold opens i (sensor ∷ sensors) =
    let rest = check_temperature_threshold opens (suc i) sensors in
    if ltb threshold_temp sensor.temperature
    then send_alert (opens i) sensor.temperature sensor.name ++ rest
    else rest
