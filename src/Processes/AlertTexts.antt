-- ===== src/Processes/AlertTexts.antt =====
-- What the child for infection alerts writes to the FIFO, as create_infection_alerts_process of
-- src/server/server.c runs it.
use shelter_server.Prelude.{
  ℕ, suc, ◌+◌, ◌<◌, ◌≤◌, ◌≡◌, refl, Bytes, Bool, true, false, some, List, [], ◌∷◌, ◌++◌, arith, ltb,
  Bool-cases, inl, inr,
}
use shelter_server.Emergency.{detect_entry}
use shelter_server.Sensors.{
  Sensor, initiate_alert_module, update_sensor_values, alert_text, send_alert, threshold_temp,
  check_temperature_threshold,
}
use shelter_server.Sensors.Alerts.{
  Place, north, south, west, east, sensor_name, entry_name, get_temperature_lem, detect-alert_text,
}
use shelter_server.Processes.{Measurement, measure, infection_alerts_process}

-- An alert of the sensor at a place, which the server finds to be of that entry.
abbrev pub IsAlert : Bytes → Type 0
IsAlert line =
    (e : Place) × (t : ℕ) × (threshold_temp < t)
    × (t ≤ 430)
    × (line ≡ alert_text (sensor_name e) t)
    × (detect_entry line ≡ some (entry_name e))

abbrev pub AreAlerts : List Bytes → Type 0
AreAlerts [] = Unit
AreAlerts (line ∷ lines) = IsAlert line × AreAlerts lines

abbrev pub IsNamed : Sensor → Type 0
IsNamed s = (e : Place) × (s.name ≡ sensor_name e)

-- Sensors of the four places, and with temperatures that they can measure.
abbrev pub AreNamed : List Sensor → Type 0
AreNamed [] = Unit
AreNamed (s ∷ sensors) = IsNamed s × AreNamed sensors

abbrev pub AreMeasured : List Sensor → Type 0
AreMeasured [] = Unit
AreMeasured (s ∷ sensors) = IsNamed s × (s.temperature ≤ 430) × AreMeasured sensors

AreAlerts-append : (xs ys : List Bytes) → AreAlerts xs → AreAlerts ys → AreAlerts (xs ++ ys)
AreAlerts-append [] ys h k = k
AreAlerts-append (x ∷ xs) ys h k = (h.0, AreAlerts-append xs ys h.1 k)

update_sensor_values-AreMeasured :
    (rand : ℕ → ℕ) (i : ℕ) (sensors : List Sensor)
    → AreNamed sensors
    → AreMeasured (update_sensor_values rand i sensors)
unfolding update_sensor_values
update_sensor_values-AreMeasured rand i [] h = tt
update_sensor_values-AreMeasured rand i (s ∷ sensors) h = (
  h.0,
  (get_temperature_lem (rand i) (rand (i + 1))).1,
  update_sensor_values-AreMeasured rand (i + 2) sensors h.1,
)

AreMeasured-AreNamed : (sensors : List Sensor) → AreMeasured sensors → AreNamed sensors
AreMeasured-AreNamed [] h = tt
AreMeasured-AreNamed (s ∷ sensors) h = (h.0, AreMeasured-AreNamed sensors h.2)

send_alert-AreAlerts :
    (opens : Bool) (e : Place) (t : ℕ)
    → threshold_temp < t
    → t ≤ 430
    → AreAlerts (send_alert opens t (sensor_name e))
unfolding send_alert
send_alert-AreAlerts false e t h k = tt
send_alert-AreAlerts true e t h k = ((e, t, h, k, refl, detect-alert_text e t), tt)

check-AreAlerts :
    (opens : ℕ → Bool) (i : ℕ) (sensors : List Sensor)
    → AreMeasured sensors
    → AreAlerts (check_temperature_threshold opens i sensors)
unfolding check_temperature_threshold
check-AreAlerts opens i [] h = tt
check-AreAlerts opens i (s ∷ sensors) h = elim (Bool-cases (ltb threshold_temp s.temperature)) [
  | inl hot ↦
      rw (hot, h.0.1)
        (AreAlerts-append _ _
          (send_alert-AreAlerts (opens i) h.0.0 s.temperature (ground arith) h.1)
          (check-AreAlerts opens (suc i) sensors h.2))
  | inr cold ↦ rw cold (check-AreAlerts opens (suc i) sensors h.2)
]

measure-AreAlerts :
    (ms : List Measurement) (sensors : List Sensor)
    → AreNamed sensors
    → AreAlerts (measure sensors ms)
unfolding measure
measure-AreAlerts [] sensors h = tt
measure-AreAlerts (m ∷ ms) sensors h =
    let measured = update_sensor_values-AreMeasured m.rand 0 sensors h in
    AreAlerts-append _ _
      (check-AreAlerts m.opens 0 (update_sensor_values m.rand 0 sensors) measured)
      (measure-AreAlerts ms _ (AreMeasured-AreNamed _ measured))

-- Whatever rand returns, whatever stands in the memory of the sensors at first, and in any number of
-- rounds, the child for infection alerts writes to the FIFO only alerts of its four sensors, for
-- temperatures above 38.0 and of at most 43.0 degrees, each of which the server finds to be of the
-- entry at which the sensor stands.
pub infection_alerts_process-AreAlerts :
    (memory : ℕ → ℕ) (ms : List Measurement) → AreAlerts (infection_alerts_process memory ms)
unfolding infection_alerts_process initiate_alert_module
infection_alerts_process-AreAlerts memory ms =
    measure-AreAlerts ms _ ((north, refl), ((south, refl), ((west, refl), ((east, refl), tt))))
