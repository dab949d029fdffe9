-- ===== src/PowerOutage.antt =====
-- lib/emergNotif/src/emergNotif.c, and the loop of the child process that
-- create_power_outage_alert_process of src/server/server.c forks.
pub mod Disconnection
use shelter_server.Prelude.{
  ℕ, suc, ◌+◌, ◌*◌, ◌%◌, ◌≤◌, ◌≡◌, refl, ap, Bytes, text, Bool, true, false, ◌&&◌, List, [], ◌∷◌,
  length, if◌then◌else◌, arith,
}

-- One round of the loop: what rand returns, and whether socket, connect and send succeed.
pub record Attempt : Type 0 where
  pub random : ℕ
  pub socket_made : Bool
  pub connects : Bool
  pub sends : Bool

abbrev pub failure_message : Bytes
failure_message = text "Electricity failure. Disconnecting all clients."

unfoldable pub get_random_failure_minutes : ℕ → ℕ
get_random_failure_minutes random = random % 6 + 5

abbrev pub seconds_in_minute : ℕ
seconds_in_minute = 60

-- A message to the Unix socket, with the second in which it is sent.
pub record Notice : Type 0 where
  pub second : ℕ
  pub message : Bytes

-- `false` is the end by exit(EXIT_FAILURE).
unfoldable pub init_emergency_notification : Attempt → Bool
init_emergency_notification a = a.socket_made && a.connects

unfoldable pub simulate_electricity_failure : ℕ → Attempt → List Notice → List Notice
simulate_electricity_failure now a rest =
    if a.sends then record { second = now; message = failure_message } ∷ rest else rest

-- The messages of the rounds from the second `now` on.
unfoldable pub notify : ℕ → List Attempt → List Notice
unfolding get_random_failure_minutes init_emergency_notification simulate_electricity_failure
notify now [] = []
notify now (a ∷ attempts) =
    let later = now + seconds_in_minute * get_random_failure_minutes a.random in
    let rest = notify later attempts in
    if init_emergency_notification a then simulate_electricity_failure later a rest else []

-- The child, which first waits a second for the socket.
unfoldable pub power_outage_process : List Attempt → List Notice
unfolding notify
power_outage_process attempts = notify 1 attempts

abbrev pub AllSucceed : List Attempt → Type 0
AllSucceed [] = Unit
AllSucceed (a ∷ attempts) =
    (a.socket_made ≡ true) × (a.connects ≡ true) × (a.sends ≡ true) × AllSucceed attempts

-- Each message comes five to ten minutes after the one before it, the first one after `now`.
abbrev pub AreSpaced : ℕ → List Notice → Type 0
AreSpaced now [] = Unit
AreSpaced now (n ∷ notices) =
    (now + 300 ≤ n.second)
    × (n.second ≤ now + 600)
    × (n.message ≡ failure_message)
    × AreSpaced n.second notices

notify-AreSpaced :
    (now : ℕ) (attempts : List Attempt)
    → AllSucceed attempts
    → AreSpaced now (notify now attempts) × (length (notify now attempts) ≡ length attempts)
unfolding notify init_emergency_notification simulate_electricity_failure get_random_failure_minutes
notify-AreSpaced now [] h = (tt, refl)
notify-AreSpaced now (a ∷ attempts) h =
    let later : ℕ = now + 60 * (a.random % 6 + 5) in
    let rest = notify-AreSpaced later attempts h.3 in
    rw (h.0, h.1, h.2) ((omega arith, omega arith, refl, rest.0), ap suc rest.1)

-- As long as its calls of socket, connect and send succeed, the power outage process sends one
-- message a round, the text of FAILURE_MESSAGE, each one five to ten minutes after the one before
-- it, and the first one five to ten minutes after the first second.
pub power_outage_process-AreSpaced :
    (attempts : List Attempt)
    → AllSucceed attempts
    → AreSpaced 1 (power_outage_process attempts)
      × (length (power_outage_process attempts) ≡ length attempts)
unfolding power_outage_process
power_outage_process-AreSpaced attempts h = notify-AreSpaced 1 attempts h
