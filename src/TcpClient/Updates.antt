-- ===== src/TcpClient/Updates.antt =====
-- The update that the client's menus ask for, as the server reads it.
use shelter_server.Prelude.{ℤ, IsInt, ◌≡◌, refl, text, same_name, true, some}
use shelter_server.Json.{CJson}
use shelter_server.Supplies.{
  FoodSupply, MedicineSupply, update_food, update_medicine, update_food_at, update_medicine_at,
}
use shelter_server.TcpClient.Menu.{asked, menu_turn, request_json, item_json}
use shelter_server.TcpClient.Reading.{
  FoodItem, meat, vegetables, fruits, water, MedicineItem, antibiotics, analgesics, bandages,
  food_key, medicine_key, food_input, medicine_input, raise_food, raise_medicine, get_message,
  get_section, get_no_section, food_changed, medicine_changed,
}

module _ (c : CJson) where
  open c use {
    Json, get_object_item, is_object, is_number, value_int, value_string, create_object,
    create_string, create_number, add_item, get_created, get_added_self, get_added_other,
    is_object_created, is_object_added, is_number_created, value_int_created, value_string_created,
  }

  -- The request is an update for the server, which makes these changes of the stocks.
  abbrev pub IsUpdate :
      Json → (FoodSupply → FoodSupply) → (MedicineSupply → MedicineSupply) → Type 0
  IsUpdate j change_food change_medicine =
      ((m : Json) × (get_object_item j (text "message") ≡ some m)
        × (value_string m ≡ some (text "update")))
      × ((f : FoodSupply) → update_food_at c (some f) j ≡ some (some (change_food f)))
      × ((m : MedicineSupply) → update_medicine_at c (some m) j ≡ some (some (change_medicine m)))

  pub food_request :
      (item : FoodItem) (v : ℤ)
      → IsInt v
      → IsUpdate
          (add_item (request_json c "update") (text "food") (item_json c (food_key item) v))
          (raise_food item v)
          (λ m. m)
  unfolding update_food_at update_medicine_at update_medicine same_name
  food_request item v h = (
    (
      create_string (text "update"),
      get_message c (text "food") _ refl,
      value_string_created (text "update"),
    ),
    (λ f. rw (get_section c (text "food") (food_key item) v refl, food_changed c item v f h) refl),
    (λ m.
        rw
          (get_no_section c (text "food") (text "medicine") (item_json c (food_key item) v) refl
            refl)
          refl),
  )

  pub medicine_request :
      (item : MedicineItem) (v : ℤ)
      → IsInt v
      → IsUpdate
          (add_item (request_json c "update") (text "medicine") (item_json c (medicine_key item) v))
          (λ f. f)
          (raise_medicine item v)
  unfolding update_food_at update_medicine_at update_food same_name
  medicine_request item v h = (
    (
      create_string (text "update"),
      get_message c (text "medicine") _ refl,
      value_string_created (text "update"),
    ),
    (λ f.
        rw
          (get_no_section c (text "medicine") (text "food") (item_json c (medicine_key item) v) refl
            refl)
          refl),
    (λ m.
        rw
          (
            get_section c (text "medicine") (medicine_key item) v refl,
            medicine_changed c item v m h,
          )
          refl),
  )

  pub food_named :
      (item : FoodItem) (v : ℤ)
      → menu_turn c true (food_input item v)
        ≡ asked (add_item (request_json c "update") (text "food") (item_json c (food_key item) v))
  unfolding menu_turn
  food_named meat v = refl
  food_named vegetables v = refl
  food_named fruits v = refl
  food_named water v = refl

  pub medicine_named :
      (item : MedicineItem) (v : ℤ)
      → menu_turn c true (medicine_input item v)
        ≡ asked (
            add_item
              (request_json c "update")
              (text "medicine")
              (item_json c (medicine_key item) v))
  unfolding menu_turn
  medicine_named antibiotics v = refl
  medicine_named analgesics v = refl
  medicine_named bandages v = refl

  -- When the user of a client that counts as authenticated asks to update an item of the food or of
  -- the medicine by an amount, an `int`, the client sends a request whose message is "update", and
  -- in which the server, with both segments there, reads an update that adds the amount to the stock
  -- of that item, as the server adds, and changes no other stock.
  pub menu_turn-updates :
      (v : ℤ)
      → IsInt v
      → ((item : FoodItem)
          → (j : Json) × (menu_turn c true (food_input item v) ≡ asked j)
            × IsUpdate j (raise_food item v) (λ m. m))
        × ((item : MedicineItem)
            → (j : Json) × (menu_turn c true (medicine_input item v) ≡ asked j)
              × IsUpdate j (λ f. f) (raise_medicine item v))
  menu_turn-updates v h = (
    (λ item. (_, food_named item v, food_request item v h)),
    (λ item. (_, medicine_named item v, medicine_request item v h)),
  )
