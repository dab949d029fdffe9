-- ===== src/Summary.antt =====
-- create_summary_json and send_json_to_tcp_client of src/server/server.c, and
-- update_supplies_from_json on the segments of the server.
use shelter_server.Prelude.{ℕ, Bytes, text, Option, none, some, [], ◌∷◌}
use shelter_server.Json.{CJson}
use shelter_server.Supplies.{
  add_numbers, convert_supplies_to_json, update_food_at, update_medicine_at,
}
use shelter_server.Emergency.{
  EntryAlertsCount, get_alerts_for_entry, get_last_keepalived, get_last_event,
  update_emergency_info,
}
use shelter_server.Server.{M, pure, deref, emit, sent, get_state, put_state, ◌>>=◌}

module _ (c : CJson) where
  open c use {Json, print, create_object, create_string, add_item}

  unfoldable pub alerts_json : EntryAlertsCount → Json
  unfolding get_alerts_for_entry add_numbers
  alerts_json counts = add_numbers c create_object (
      (text "north_entry", get_alerts_for_entry counts (text "NORTH"))
      ∷ (text "east_entry", get_alerts_for_entry counts (text "EAST"))
      ∷ (text "west_entry", get_alerts_for_entry counts (text "WEST"))
      ∷ (text "south_entry", get_alerts_for_entry counts (text "SOUTH"))
      ∷ [])

  -- cJSON_AddItemToObject adds nothing where the item is NULL.
  abbrev pub add_unless_null : Json → Bytes → Option Json → Json
  add_unless_null j k none = j
  add_unless_null j k (some item) = add_item j k item

  unfoldable pub emergency_json : Bytes → Bytes → Json
  emergency_json last_keepalived last_event =
      add_item (add_item create_object (text "last_keepalived") (create_string last_keepalived))
        (text "last_event") (create_string last_event)

  unfoldable pub create_summary_json : M Json
  unfolding alerts_json emergency_json
  create_summary_json = do
    s ← get_state
    let summary = add_item create_object (text "alerts") (alerts_json s.entry_alerts_count)
    supplies ← deref (convert_supplies_to_json c s.host.alloc s.food s.medicine)
    last_keepalived ← deref (get_last_keepalived s.emergency_info)
    last_event ← deref (get_last_event s.emergency_info)
    pure (
        add_item (add_unless_null summary (text "supplies") supplies) (text "emergency")
          (emergency_json last_keepalived last_event))

  -- cJSON_Print gives NULL for NULL, and strlen reads it.
  unfoldable pub send_json_to_tcp_client : ℕ → Option Json → M (Unit {0})
  send_json_to_tcp_client sockfd json = do j ← deref json; emit (sent sockfd (print j))

  unfoldable pub update_supplies_from_json : Json → M (Unit {0})
  update_supplies_from_json json = do
    s ← get_state
    food ← deref (update_food_at c s.food json)
    medicine ← deref (update_medicine_at c s.medicine json)
    put_state (record s { food = food; medicine = medicine })

-- update_emergency_info with the present time, on the global structure.
unfoldable pub set_emergency : Bytes → M (Unit {0})
unfolding update_emergency_info
set_emergency event = do
  s ← get_state
  put_state (record s { emergency_info = update_emergency_info s.host.clock event })
