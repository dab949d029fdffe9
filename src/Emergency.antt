-- ===== src/Emergency.antt =====
-- EmergencyInfo and EntryAlertsCount of include/server.h: the counters of alerts for each entry and
-- the texts of the last event, with their functions of src/server/server.c.
pub mod Texts
pub mod Counters
use shelter_server.Prelude.{
  ℕ, zero, suc, ℤ, pos, negsuc, add_int, Bytes, text, strncpy, bytes_eq, contains, Option, none,
  some, List, [], ◌∷◌, replicate, ◌==◌, if◌then◌else◌,
}

pub record EntryAlertsCount : Type 0 where
  pub north : ℤ
  pub south : ℤ
  pub east : ℤ
  pub west : ℤ

-- initialize_entry_alerts_count
abbrev pub initialize_entry_alerts_count : EntryAlertsCount
initialize_entry_alerts_count = record { north = pos 0; south = pos 0; east = pos 0; west = pos 0 }

-- `none` is the NULL of a message that names no entry.
unfoldable pub detect_entry : Bytes → Option Bytes
detect_entry alert_message =
    if contains alert_message (text "NORTH")
    then some (text "NORTH")
    else if contains alert_message (text "SOUTH")
    then some (text "SOUTH")
    else if contains alert_message (text "EAST")
    then some (text "EAST")
    else if contains alert_message (text "WEST")
    then some (text "WEST")
    else none

unfoldable pub get_alerts_for_entry : EntryAlertsCount → Bytes → ℤ
unfolding bytes_eq
get_alerts_for_entry counts entry =
    if bytes_eq entry (text "NORTH")
    then counts.north
    else if bytes_eq entry (text "SOUTH")
    then counts.south
    else if bytes_eq entry (text "EAST")
    then counts.east
    else if bytes_eq entry (text "WEST")
    then counts.west
    else negsuc 0

-- The counter that check_alerts raises.
unfoldable pub count_entry : Bytes → EntryAlertsCount → EntryAlertsCount
unfolding bytes_eq
count_entry entry counts =
    if bytes_eq entry (text "NORTH")
    then record counts { north = add_int counts.north (pos 1) }
    else if bytes_eq entry (text "SOUTH")
    then record counts { south = add_int counts.south (pos 1) }
    else if bytes_eq entry (text "EAST")
    then record counts { east = add_int counts.east (pos 1) }
    else if bytes_eq entry (text "WEST")
    then record counts { west = add_int counts.west (pos 1) }
    else counts

-- The arrays of 30 and of 100 bytes.
pub record EmergencyInfo : Type 0 where
  pub last_keepalived : Bytes
  pub last_event : Bytes

abbrev pub keepalived_size : ℕ
keepalived_size = 30

abbrev pub event_size : ℕ
event_size = 100

abbrev pub no_emergency : EmergencyInfo
no_emergency = record {
  last_keepalived = replicate keepalived_size 0;
  last_event = replicate event_size 0;
}

unfoldable pub update_emergency_info : Bytes → Bytes → EmergencyInfo
unfolding strncpy
update_emergency_info keepalived event = record {
  last_keepalived = strncpy keepalived keepalived_size;
  last_event = strncpy event event_size;
}

-- The string that starts an array; `none` where no byte is zero, and a reader runs past the end.
unfoldable pub c_string : Bytes → Option Bytes
c_string [] = none
c_string (b ∷ bs) =
    if b == 0 then some [] else elim (c_string bs) [ none ↦ none | some s ↦ some (b ∷ s) ]

unfoldable pub get_last_keepalived : EmergencyInfo → Option Bytes
unfolding c_string
get_last_keepalived info = c_string info.last_keepalived

unfoldable pub get_last_event : EmergencyInfo → Option Bytes
unfolding c_string
get_last_event info = c_string info.last_event
