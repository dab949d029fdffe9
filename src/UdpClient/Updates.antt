-- ===== src/UdpClient/Updates.antt =====
-- The updates that the menus of src/clients/udp_client.c ask for, as the server reads them.
use shelter_server.Prelude.{
  ℤ, IsInt, ◌≡◌, refl, ap, ◌∙◌, Bytes, text, same_name, false, Option, none, some,
}
use shelter_server.Json.{CJson}
use shelter_server.Supplies.{
  FoodSupply, MedicineSupply, update_food, update_medicine, update_food_at, update_medicine_at,
  section_of,
}
use shelter_server.TcpClient.Menu.{asked, item_json}
use shelter_server.TcpClient.Reading.{
  FoodItem, meat, vegetables, fruits, water, MedicineItem, antibiotics, analgesics, bandages,
  food_key, medicine_key, food_input, medicine_input, raise_food, raise_medicine, food_changed,
  medicine_changed,
}
use shelter_server.UdpClient.Menu.{named_request, datagram_turn}
use shelter_server.UdpClient.Requests.{get_hostname, get_message}

module _ (c : CJson) where
  open c use {
    Json, parse, print, get_object_item, is_object, value_string, create_object, create_string,
    create_number, add_item, get_created, get_added_self, get_added_other, is_object_created,
    is_object_added, value_string_created,
  }

  abbrev pub food_update : Bytes → FoodItem → ℤ → Json
  food_update name item v =
      add_item (named_request c name "update") (text "food") (item_json c (food_key item) v)

  abbrev pub medicine_update : Bytes → MedicineItem → ℤ → Json
  medicine_update name item v =
      add_item (named_request c name "update") (text "medicine") (item_json c (medicine_key item) v)

  pub food_asked :
      (name : Bytes) (item : FoodItem) (v : ℤ)
      → datagram_turn c name (food_input item v) ≡ asked (food_update name item v)
  unfolding datagram_turn
  food_asked name meat v = refl
  food_asked name vegetables v = refl
  food_asked name fruits v = refl
  food_asked name water v = refl

  pub medicine_asked :
      (name : Bytes) (item : MedicineItem) (v : ℤ)
      → datagram_turn c name (medicine_input item v) ≡ asked (medicine_update name item v)
  unfolding datagram_turn
  medicine_asked name antibiotics v = refl
  medicine_asked name analgesics v = refl
  medicine_asked name bandages v = refl

  no_section :
      (name k : Bytes)
      → same_name (text "message") k ≡ false
      → same_name (text "hostname") k ≡ false
      → get_object_item (named_request c name "update") k ≡ none
  unfolding named_request
  no_section name k h e =
      get_added_other _ (text "message") k _ h
      ∙ get_added_other create_object (text "hostname") k _ e
      ∙ get_created k

  section_found :
      (o : Option Json) (key : Bytes) (v : ℤ)
      → o ≡ some (item_json c key v)
      → section_of c o ≡ some (item_json c key v)
  unfolding section_of item_json
  section_found o key v e =
      rw (e, section_of, is_object_added create_object key (create_number v), is_object_created)
        refl

  section_missing : (o : Option Json) → o ≡ none → section_of c o ≡ none
  unfolding section_of
  section_missing o e = rw (e, section_of) refl

  -- What the server reads in a request, and the changes it makes for it.
  pub record IsUpdate (name : Bytes) (j : Json) (f g : FoodSupply) (m n : MedicineSupply)
      : Type 0 where
    pub message : get_object_item j (text "message") ≡ some (create_string (text "update"))
    pub hostname : get_object_item j (text "hostname") ≡ some (create_string name)
    pub food : update_food_at c (some f) j ≡ some (some g)
    pub medicine : update_medicine_at c (some m) j ≡ some (some n)

  pub food_read :
      (name : Bytes) (item : FoodItem) (v : ℤ) (f : FoodSupply) (m : MedicineSupply)
      → IsInt v
      → IsUpdate name (food_update name item v) f (raise_food item v f) m m
  unfolding update_food_at update_medicine_at update_medicine same_name
  food_read name item v f m h = record {
    message = get_added_other _ (text "food") (text "message") _ refl ∙ get_message c name "update";
    hostname =
        get_added_other _ (text "food") (text "hostname") _ refl ∙ get_hostname c name "update";
    food =
        ap (λ o. some (some (update_food c o f)))
          (section_found _ (food_key item) v
            (get_added_self _ (text "food") _ (no_section name (text "food") refl refl)))
        ∙ ap (λ g. some (some g)) (food_changed c item v f h);
    medicine =
        ap (λ o. some (some (update_medicine c o m)))
          (section_missing _ (
            get_added_other _ (text "food") (text "medicine") _ refl
            ∙ no_section name (text "medicine") refl refl));
  }

  pub medicine_read :
      (name : Bytes) (item : MedicineItem) (v : ℤ) (f : FoodSupply) (m : MedicineSupply)
      → IsInt v
      → IsUpdate name (medicine_update name item v) f f m (raise_medicine item v m)
  unfolding update_food_at update_medicine_at update_food same_name
  medicine_read name item v f m h = record {
    message =
        get_added_other _ (text "medicine") (text "message") _ refl ∙ get_message c name "update";
    hostname =
        get_added_other _ (text "medicine") (text "hostname") _ refl ∙ get_hostname c name "update";
    food =
        ap (λ o. some (some (update_food c o f)))
          (section_missing _ (
            get_added_other _ (text "medicine") (text "food") _ refl
            ∙ no_section name (text "food") refl refl));
    medicine =
        ap (λ o. some (some (update_medicine c o m)))
          (section_found _ (medicine_key item) v
            (get_added_self _ (text "medicine") _ (no_section name (text "medicine") refl refl)))
        ∙ ap (λ n. some (some n)) (medicine_changed c item v m h);
  }
