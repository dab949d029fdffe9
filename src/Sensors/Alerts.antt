-- ===== src/Sensors/Alerts.antt =====
-- The temperatures that the sensors measure, and their alerts as the server reads them.
use shelter_server.Prelude.{
  ℕ, ◌+◌, ◌/◌, ◌%◌, ◌≤◌, ◌≡◌, refl, ap, ◌∙◌, Bytes, IsText, text, decimal, contains, is_prefix,
  contains-digits, digits-IsText, decimal-AllDigits, length-decimal, length-append, length, some,
  [], ◌∷◌, ◌++◌, ◌==◌, ltb, arith, if◌then◌else◌,
}
use shelter_server.Emergency.{detect_entry, count_entry}
use shelter_server.Server.{Server, done}
use shelter_server.AlertHandler.{check_alerts}
use shelter_server.AlertHandler.Delivery.{CanLog, alerted, counted, check_alerts_lem}
use shelter_server.Sensors.{get_temperature, celsius, alert_text, threshold_temp}

-- A measured temperature lies between 35.0 and 43.0 degrees. It exceeds the threshold for an alert
-- when the first random number is zero and the second, modulo 51, is not, or when the first is not
-- zero and the second, modulo 40, is above 30.
pub get_temperature_lem :
    (first second : ℕ)
    → (350 ≤ get_temperature first second)
      × (get_temperature first second ≤ 430)
      × (ltb threshold_temp (get_temperature first second)
          ≡ (if first == 0 then ltb 0 (second % 51) else ltb 30 (second % 40)))
unfolding get_temperature
get_temperature_lem first second = (ground arith, ground arith, ground arith)

-- The sensors, with their names and the entries that the server counts.
pub data Place : Type 0 where
  north south west east : Place

abbrev pub sensor_name : Place → Bytes
sensor_name north = text "NORTH ENTRY"
sensor_name south = text "SOUTH ENTRY"
sensor_name west = text "WEST ENTRY"
sensor_name east = text "EAST ENTRY"

abbrev pub entry_name : Place → Bytes
entry_name north = text "NORTH"
entry_name south = text "SOUTH"
entry_name west = text "WEST"
entry_name east = text "EAST"

contains-celsius :
    (t : ℕ) (b : ℕ) (p : Bytes)
    → 58 ≤ b
    → contains (celsius t) (b ∷ p) ≡ contains (46 ∷ 194 ∷ 176 ∷ text "C ") (b ∷ p)
unfolding celsius contains is_prefix
contains-celsius t b p h =
    contains-digits (decimal (t / 10)) _ p b (decimal-AllDigits (t / 10)) h ∙ ground arith

pub detect-alert_text :
    (e : Place) (t : ℕ) → detect_entry (alert_text (sensor_name e) t) ≡ some (entry_name e)
unfolding detect_entry alert_text contains is_prefix
detect-alert_text north t = refl
detect-alert_text south t = rw (contains-celsius t 78 (text "ORTH") (omega arith)) refl
detect-alert_text west t =
    rw
      (
        contains-celsius t 78 (text "ORTH") (omega arith),
        contains-celsius t 83 (text "OUTH") (omega arith),
        contains-celsius t 69 (text "AST") (omega arith),
      )
      refl
detect-alert_text east t =
    rw
      (
        contains-celsius t 78 (text "ORTH") (omega arith),
        contains-celsius t 83 (text "OUTH") (omega arith),
      )
      refl

name-IsText : (e : Place) (t : Bytes) → IsText t → IsText (sensor_name e ++ (text ", ALERT, " ++ t))
name-IsText north t h = ground arith
name-IsText south t h = ground arith
name-IsText west t h = ground arith
name-IsText east t h = ground arith

celsius-IsText : (t : ℕ) → IsText (celsius t)
unfolding celsius
celsius-IsText t = digits-IsText (decimal (t / 10)) _ (decimal-AllDigits (t / 10)) (ground arith)

length-celsius : (t : ℕ) → t ≤ 430 → length (celsius t) ≤ 50
unfolding celsius
length-celsius t h = omega (
  arith,
  length-append (decimal (t / 10)) (46 ∷ (48 + t % 10) ∷ 194 ∷ 176 ∷ text "C "),
  length-decimal (t / 10),
)

alert_handled :
    (e : Place) (t : ℕ) (home : Bytes) (s : Server)
    → CanLog home s
    → t ≤ 430
    → check_alerts (some (some (alert_text (sensor_name e) t))) s
      ≡ done tt (alerted home (alert_text (sensor_name e) t) s)
unfolding alert_text
alert_handled north t home s h hot =
    check_alerts_lem _ _ home s h (name-IsText north _ (celsius-IsText t))
      (omega (arith, length-celsius t hot))
alert_handled south t home s h hot =
    check_alerts_lem _ _ home s h (name-IsText south _ (celsius-IsText t))
      (omega (arith, length-celsius t hot))
alert_handled west t home s h hot =
    check_alerts_lem _ _ home s h (name-IsText west _ (celsius-IsText t))
      (omega (arith, length-celsius t hot))
alert_handled east t home s h hot =
    check_alerts_lem _ _ home s h (name-IsText east _ (celsius-IsText t))
      (omega (arith, length-celsius t hot))

-- The alert that a sensor writes to the FIFO for a temperature of at most 43.0 degrees is counted
-- by the server, when its log can be written, at the entry of that sensor, and is handled as an
-- alert in all else.
pub check_alerts-alert_text :
    (e : Place) (t : ℕ) (home : Bytes) (s : Server)
    → CanLog home s
    → t ≤ 430
    → check_alerts (some (some (alert_text (sensor_name e) t))) s
      ≡ done tt (record (alerted home (alert_text (sensor_name e) t) s) {
        entry_alerts_count = count_entry (entry_name e) s.entry_alerts_count;
      })
unfolding alerted
check_alerts-alert_text e t home s h hot =
    alert_handled e t home s h hot
    ∙ ap
        (λ o. done tt (record (alerted home (alert_text (sensor_name e) t) s) {
          entry_alerts_count = counted o s.entry_alerts_count;
        }))
        (detect-alert_text e t)

IsText-append : (s t : Bytes) → IsText s → IsText t → IsText (s ++ t)
IsText-append [] t h k = k
IsText-append (b ∷ s) t h k = (h.0, IsText-append s t h.1 k)

alert_text-IsText : (e : Place) (t : ℕ) → IsText (alert_text (sensor_name e) t)
unfolding alert_text
alert_text-IsText e t = name-IsText e (celsius t) (celsius-IsText t)

length-alert_text : (e : Place) (t : ℕ) → t ≤ 430 → length (alert_text (sensor_name e) t) ≤ 80
unfolding alert_text
length-alert_text north t h = omega (arith, length-celsius t h)
length-alert_text south t h = omega (arith, length-celsius t h)
length-alert_text west t h = omega (arith, length-celsius t h)
length-alert_text east t h = omega (arith, length-celsius t h)

two_alerts_handled :
    (e : Place) (t u : ℕ) (home : Bytes) (s : Server)
    → CanLog home s
    → t ≤ 430
    → u ≤ 430
    → check_alerts
        (some (some (alert_text (sensor_name north) t ++ alert_text (sensor_name e) u)))
        s
      ≡ done tt (alerted home (alert_text (sensor_name north) t ++ alert_text (sensor_name e) u) s)
two_alerts_handled e t u home s h hot hot' =
    let next : Bytes = alert_text (sensor_name e) u in
    unfold alert_text in
    check_alerts_lem _ _ home s h
      (name-IsText north _
        (IsText-append (celsius t) next (celsius-IsText t) (alert_text-IsText e u)))
      (omega
        (arith, length-celsius t hot, length-append (celsius t) next, length-alert_text e u hot'))

detect-two_alerts :
    (e : Place) (t u : ℕ)
    → detect_entry (alert_text (sensor_name north) t ++ alert_text (sensor_name e) u)
      ≡ some (text "NORTH")
unfolding detect_entry alert_text contains is_prefix
detect-two_alerts e t u = refl

-- Two alerts, for temperatures of at most 43.0 degrees, that the server reads from the FIFO at
-- once, the first from the north sensor, are handled as one message when the log can be written:
-- the north entry is counted once, and nothing is counted for the second alert.
pub check_alerts-two_alerts :
    (e : Place) (t u : ℕ) (home : Bytes) (s : Server)
    → CanLog home s
    → t ≤ 430
    → u ≤ 430
    → check_alerts
        (some (some (alert_text (sensor_name north) t ++ alert_text (sensor_name e) u)))
        s
      ≡ done tt
          (record (alerted home
            (alert_text (sensor_name north) t ++ alert_text (sensor_name e) u)
            s) { entry_alerts_count = count_entry (text "NORTH") s.entry_alerts_count })
unfolding alerted
check_alerts-two_alerts e t u home s h hot hot' =
    two_alerts_handled e t u home s h hot hot'
    ∙ ap
        (λ o.
          done tt
            (record (alerted home (alert_text (sensor_name north) t ++ alert_text (sensor_name e) u)
              s) { entry_alerts_count = counted o s.entry_alerts_count }))
        (detect-two_alerts e t u)
