-- ===== src/TcpClient/Reading.antt =====
-- The items of the client's menus, and how the server reads the objects that the client builds
-- for them.
use shelter_server.Prelude.{ℤ, IsInt, ◌≡◌, refl, ◌∙◌, Bytes, text, same_name, false, none, some}
use shelter_server.Json.{CJson}
use shelter_server.Supplies.{
  FoodSupply, MedicineSupply, add_clamped, update_item, update_food, update_medicine, section_of,
}
use shelter_server.TcpClient.Menu.{Input, typed, request_json, item_json}

pub data FoodItem : Type 0 where
  meat vegetables fruits water : FoodItem

pub data MedicineItem : Type 0 where
  antibiotics analgesics bandages : MedicineItem

-- The number of the item in its menu.
abbrev pub food_choice : FoodItem → Bytes
food_choice meat = typed "1"
food_choice vegetables = typed "2"
food_choice fruits = typed "3"
food_choice water = typed "4"

abbrev pub medicine_choice : MedicineItem → Bytes
medicine_choice antibiotics = typed "1"
medicine_choice analgesics = typed "2"
medicine_choice bandages = typed "3"

abbrev pub food_key : FoodItem → Bytes
food_key meat = text "meat"
food_key vegetables = text "vegetables"
food_key fruits = text "fruits"
food_key water = text "water"

abbrev pub medicine_key : MedicineItem → Bytes
medicine_key antibiotics = text "antibiotics"
medicine_key analgesics = text "analgesics"
medicine_key bandages = text "bandages"

-- The answers that ask for an update of the item.
abbrev pub food_input : FoodItem → ℤ → Input
food_input item v = record {
  choice = some (typed "2");
  resource = some (typed "1");
  item = some (food_choice item);
  amount = some v;
}

abbrev pub medicine_input : MedicineItem → ℤ → Input
medicine_input item v = record {
  choice = some (typed "2");
  resource = some (typed "2");
  item = some (medicine_choice item);
  amount = some v;
}

-- The one stock changes, by the amount.
abbrev pub raise_food : FoodItem → ℤ → FoodSupply → FoodSupply
raise_food meat v f = record f { meat = add_clamped f.meat v }
raise_food vegetables v f = record f { vegetables = add_clamped f.vegetables v }
raise_food fruits v f = record f { fruits = add_clamped f.fruits v }
raise_food water v f = record f { water = add_clamped f.water v }

abbrev pub raise_medicine : MedicineItem → ℤ → MedicineSupply → MedicineSupply
raise_medicine antibiotics v m = record m { antibiotics = add_clamped m.antibiotics v }
raise_medicine analgesics v m = record m { analgesics = add_clamped m.analgesics v }
raise_medicine bandages v m = record m { bandages = add_clamped m.bandages v }

module _ (c : CJson) where
  open c use {
    Json, get_object_item, is_object, is_number, value_int, value_string, create_object,
    create_string, create_number, add_item, get_created, get_added_self, get_added_other,
    is_object_created, is_object_added, is_number_created, value_int_created, value_string_created,
  }

  -- The one item of an object is read for its name, and for no other.
  read_one :
      (name : Bytes) (v s : ℤ)
      → IsInt v
      → update_item c (get_object_item (item_json c name v) name) s ≡ add_clamped s v
  unfolding update_item item_json
  read_one name v s h =
      rw
        (
          get_added_self create_object name (create_number v) (get_created name),
          update_item,
          is_number_created v,
          value_int_created v h,
        )
        refl

  read_other :
      (name l : Bytes) (v s : ℤ)
      → same_name name l ≡ false
      → update_item c (get_object_item (item_json c name v) l) s ≡ s
  unfolding update_item item_json
  read_other name l v s e =
      rw (get_added_other create_object name l (create_number v) e, get_created l, update_item) refl

  -- The items of a request with one section.
  pub get_message :
      (section : Bytes) (obj : Json)
      → same_name section (text "message") ≡ false
      → get_object_item (add_item (request_json c "update") section obj) (text "message")
        ≡ some (create_string (text "update"))
  unfolding request_json
  get_message section obj e =
      get_added_other _ section (text "message") obj e
      ∙ get_added_self create_object (text "message") _ (get_created (text "message"))

  pub get_section :
      (section name : Bytes) (v : ℤ)
      → same_name (text "message") section ≡ false
      → section_of c (
          get_object_item (add_item (request_json c "update") section (item_json c name v)) section)
        ≡ some (item_json c name v)
  unfolding request_json item_json section_of
  get_section section name v e =
      rw
        (
          get_added_self _ section _
              (get_added_other create_object (text "message") section _ e ∙ get_created section),
          section_of,
          is_object_added create_object name (create_number v),
          is_object_created,
        )
        refl

  pub get_no_section :
      (section other : Bytes) (obj : Json)
      → same_name section other ≡ false
      → same_name (text "message") other ≡ false
      → section_of c (get_object_item (add_item (request_json c "update") section obj) other) ≡ none
  unfolding request_json section_of
  get_no_section section other obj e h =
      rw
        (
          get_added_other (request_json c "update") section other obj e,
          get_added_other create_object (text "message") other (create_string (text "update")) h,
          get_created other,
          section_of,
        )
        refl

  pub food_changed :
      (item : FoodItem) (v : ℤ) (f : FoodSupply)
      → IsInt v
      → update_food c (some (item_json c (food_key item) v)) f ≡ raise_food item v f
  unfolding update_food same_name
  food_changed meat v f h = λ i. record {
    meat = read_one (text "meat") v f.meat h i;
    vegetables = read_other (text "meat") (text "vegetables") v f.vegetables refl i;
    fruits = read_other (text "meat") (text "fruits") v f.fruits refl i;
    water = read_other (text "meat") (text "water") v f.water refl i;
  }
  food_changed vegetables v f h = λ i. record {
    meat = read_other (text "vegetables") (text "meat") v f.meat refl i;
    vegetables = read_one (text "vegetables") v f.vegetables h i;
    fruits = read_other (text "vegetables") (text "fruits") v f.fruits refl i;
    water = read_other (text "vegetables") (text "water") v f.water refl i;
  }
  food_changed fruits v f h = λ i. record {
    meat = read_other (text "fruits") (text "meat") v f.meat refl i;
    vegetables = read_other (text "fruits") (text "vegetables") v f.vegetables refl i;
    fruits = read_one (text "fruits") v f.fruits h i;
    water = read_other (text "fruits") (text "water") v f.water refl i;
  }
  food_changed water v f h = λ i. record {
    meat = read_other (text "water") (text "meat") v f.meat refl i;
    vegetables = read_other (text "water") (text "vegetables") v f.vegetables refl i;
    fruits = read_other (text "water") (text "fruits") v f.fruits refl i;
    water = read_one (text "water") v f.water h i;
  }

  pub medicine_changed :
      (item : MedicineItem) (v : ℤ) (m : MedicineSupply)
      → IsInt v
      → update_medicine c (some (item_json c (medicine_key item) v)) m ≡ raise_medicine item v m
  unfolding update_medicine same_name
  medicine_changed antibiotics v m h = λ i. record {
    antibiotics = read_one (text "antibiotics") v m.antibiotics h i;
    analgesics = read_other (text "antibiotics") (text "analgesics") v m.analgesics refl i;
    bandages = read_other (text "antibiotics") (text "bandages") v m.bandages refl i;
  }
  medicine_changed analgesics v m h = λ i. record {
    antibiotics = read_other (text "analgesics") (text "antibiotics") v m.antibiotics refl i;
    analgesics = read_one (text "analgesics") v m.analgesics h i;
    bandages = read_other (text "analgesics") (text "bandages") v m.bandages refl i;
  }
  medicine_changed bandages v m h = λ i. record {
    antibiotics = read_other (text "bandages") (text "antibiotics") v m.antibiotics refl i;
    analgesics = read_other (text "bandages") (text "analgesics") v m.analgesics refl i;
    bandages = read_one (text "bandages") v m.bandages h i;
  }
