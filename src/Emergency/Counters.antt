-- ===== src/Emergency/Counters.antt =====
-- The counters of alerts: detect_entry, the increments of check_alerts and get_alerts_for_entry.
use shelter_server.Prelude.{
  pos, add_int, Bytes, text, bytes_eq, contains, bytes_eq_iff, true, false, none, some, ◌≡◌, ◌⊎◌,
  inl, inr, Bool-cases, arith, if◌then◌else◌,
}
use shelter_server.Emergency.{EntryAlertsCount, detect_entry, get_alerts_for_entry, count_entry}

-- The four names.
pub data IsEntry : Bytes → Type 0 where
  north : IsEntry (text "NORTH")
  south : IsEntry (text "SOUTH")
  east : IsEntry (text "EAST")
  west : IsEntry (text "WEST")

not_named :
    (message : Bytes)
    → contains message (text "NORTH") ≡ false
    → contains message (text "SOUTH") ≡ false
    → contains message (text "EAST") ≡ false
    → contains message (text "WEST") ≡ false
    → (entry : Bytes) → IsEntry entry
    → contains message entry ≡ false
not_named message n s e w entry north = n
not_named message n s e w entry south = s
not_named message n s e w entry east = e
not_named message n s e w entry west = w

-- A message that names an entry is found to do so: the name is one of the four, and is in the
-- message. A message for which none is found has none of the four.
pub detect_entry_lem :
    (message : Bytes)
    → ((entry : Bytes) × (detect_entry message ≡ some entry)
        × IsEntry entry
        × (contains message entry ≡ true))
      ⊎ ((detect_entry message ≡ none)
          × ((entry : Bytes) → IsEntry entry → contains message entry ≡ false))
unfolding detect_entry
detect_entry_lem message = elim (Bool-cases (contains message (text "NORTH"))) [
  | inl n ↦ inl (text "NORTH", rw n, north, n)
  | inr n ↦ elim (Bool-cases (contains message (text "SOUTH"))) [
    | inl s ↦ inl (text "SOUTH", rw (n, s), south, s)
    | inr s ↦ elim (Bool-cases (contains message (text "EAST"))) [
      | inl e ↦ inl (text "EAST", rw (n, s, e), east, e)
      | inr e ↦ elim (Bool-cases (contains message (text "WEST"))) [
        | inl w ↦ inl (text "WEST", rw (n, s, e, w), west, w)
        | inr w ↦ inr (rw (n, s, e, w), not_named message n s e w)
      ]
    ]
  ]
]

-- Counting an alert at one of the four entries raises the count that is reported for that entry by
-- one, and leaves those reported for all other names.
pub get_alerts-count_entry :
    (counts : EntryAlertsCount) (entry other : Bytes)
    → IsEntry entry
    → get_alerts_for_entry (count_entry entry counts) other ≡ (
        if bytes_eq other entry
        then add_int (get_alerts_for_entry counts other) (pos 1)
        else get_alerts_for_entry counts other)
unfolding get_alerts_for_entry count_entry
get_alerts-count_entry counts entry other north = ground (
  arith,
  bytes_eq_iff other (text "NORTH"),
  bytes_eq_iff other (text "SOUTH"),
  bytes_eq_iff other (text "EAST"),
  bytes_eq_iff other (text "WEST"),
)
get_alerts-count_entry counts entry other south = ground (
  arith,
  bytes_eq_iff other (text "NORTH"),
  bytes_eq_iff other (text "SOUTH"),
  bytes_eq_iff other (text "EAST"),
  bytes_eq_iff other (text "WEST"),
)
get_alerts-count_entry counts entry other east = ground (
  arith,
  bytes_eq_iff other (text "NORTH"),
  bytes_eq_iff other (text "SOUTH"),
  bytes_eq_iff other (text "EAST"),
  bytes_eq_iff other (text "WEST"),
)
get_alerts-count_entry counts entry other west = ground (
  arith,
  bytes_eq_iff other (text "NORTH"),
  bytes_eq_iff other (text "SOUTH"),
  bytes_eq_iff other (text "EAST"),
  bytes_eq_iff other (text "WEST"),
)
