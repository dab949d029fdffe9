-- ===== src/Supplies.antt =====
-- lib/suppliesData/src/supplies_module.c: the stocks of food and medicine, and their update from a
-- JSON request; and convert_supplies_to_json of src/server/server.c.
-- A shared memory segment that shmget or shmat does not give is `none`, the NULL of
-- get_food_supply and get_medicine_supply.
pub mod Stock
pub mod RoundTrip
use shelter_server.Prelude.{
  ℤ, pos, add_int, ltb_ℤ, ℕ, Bytes, text, List, [], ◌∷◌, Bool, false, ◌&&◌, ◌||◌, Option, none,
  some, if◌then◌else◌,
}
use shelter_server.Json.{CJson}

pub record FoodSupply : Type 0 where
  pub meat : ℤ
  pub vegetables : ℤ
  pub fruits : ℤ
  pub water : ℤ

pub record MedicineSupply : Type 0 where
  pub antibiotics : ℤ
  pub analgesics : ℤ
  pub bandages : ℤ

abbrev pub no_food : FoodSupply
no_food = record { meat = pos 0; vegetables = pos 0; fruits = pos 0; water = pos 0 }

abbrev pub no_medicine : MedicineSupply
no_medicine = record { antibiotics = pos 0; analgesics = pos 0; bandages = pos 0 }

-- `stock += delta; if (stock < 0) stock = 0;`
unfoldable pub add_clamped : ℤ → ℤ → ℤ
add_clamped stock delta = let sum = add_int stock delta in if ltb_ℤ sum (pos 0) then pos 0 else sum

module _ (c : CJson) where
  open c use {
    Json, get_object_item, is_object, is_number, value_int, create_object, create_number, add_item,
  }

  -- `item != NULL && item->type == cJSON_Number`
  abbrev pub is_number_item : Option Json → Bool
  is_number_item none = false
  is_number_item (some item) = is_number item

  -- One resource: the item of the request, if it is a number, is added to the stock.
  unfoldable pub update_item : Option Json → ℤ → ℤ
  update_item none stock = stock
  update_item (some item) stock =
      if is_number item then add_clamped stock (value_int item) else stock

  -- The section "food" or "medicine" of a request, `none` where it is not an object.
  unfoldable pub section_of : Option Json → Option Json
  section_of none = none
  section_of (some obj) = if is_object obj then some obj else none

  unfoldable pub update_food : Option Json → FoodSupply → FoodSupply
  update_food none f = f
  update_food (some obj) f = record {
    fruits = update_item (get_object_item obj (text "fruits")) f.fruits;
    vegetables = update_item (get_object_item obj (text "vegetables")) f.vegetables;
    meat = update_item (get_object_item obj (text "meat")) f.meat;
    water = update_item (get_object_item obj (text "water")) f.water;
  }

  unfoldable pub update_medicine : Option Json → MedicineSupply → MedicineSupply
  update_medicine none m = m
  update_medicine (some obj) m = record {
    antibiotics = update_item (get_object_item obj (text "antibiotics")) m.antibiotics;
    analgesics = update_item (get_object_item obj (text "analgesics")) m.analgesics;
    bandages = update_item (get_object_item obj (text "bandages")) m.bandages;
  }

  -- Whether the update of a section writes through the pointer to the stock at all.
  unfoldable pub writes_food : Option Json → Bool
  writes_food none = false
  writes_food (some obj) =
      is_number_item (get_object_item obj (text "fruits"))
      || is_number_item (get_object_item obj (text "vegetables"))
      || is_number_item (get_object_item obj (text "meat"))
      || is_number_item (get_object_item obj (text "water"))

  unfoldable pub writes_medicine : Option Json → Bool
  writes_medicine none = false
  writes_medicine (some obj) =
      is_number_item (get_object_item obj (text "antibiotics"))
      || is_number_item (get_object_item obj (text "analgesics"))
      || is_number_item (get_object_item obj (text "bandages"))

  -- The two halves of update_supplies_from_json; `none` is a write through a NULL pointer.
  unfoldable pub update_food_at : Option FoodSupply → Json → Option (Option FoodSupply)
  unfolding section_of
  update_food_at none json =
      if writes_food (section_of (get_object_item json (text "food"))) then none else some none
  update_food_at (some f) json =
      some (some (update_food (section_of (get_object_item json (text "food"))) f))

  unfoldable pub update_medicine_at : Option MedicineSupply → Json → Option (Option MedicineSupply)
  unfolding section_of
  update_medicine_at none json =
      if writes_medicine (section_of (get_object_item json (text "medicine")))
      then none
      else some none
  update_medicine_at (some m) json =
      some (some (update_medicine (section_of (get_object_item json (text "medicine"))) m))

  -- A sequence of calls of cJSON_AddNumberToObject on one object.
  unfoldable pub add_numbers : Json → List (Bytes × ℤ) → Json
  add_numbers j [] = j
  add_numbers j ((k, n) ∷ rest) = add_numbers (add_item j k (create_number n)) rest

  -- The JSON objects of the two stocks, and of both.
  unfoldable pub food_json : FoodSupply → Json
  food_json f = add_numbers create_object (
      (text "meat", f.meat)
      ∷ (text "vegetables", f.vegetables)
      ∷ (text "fruits", f.fruits)
      ∷ (text "water", f.water)
      ∷ [])

  unfoldable pub medicine_json : MedicineSupply → Json
  medicine_json m = add_numbers create_object (
      (text "antibiotics", m.antibiotics)
      ∷ (text "analgesics", m.analgesics)
      ∷ (text "bandages", m.bandages)
      ∷ [])

  unfoldable pub supplies_json : FoodSupply → MedicineSupply → Json
  supplies_json f m =
      add_item (add_item create_object (text "food") (food_json f)) (text "medicine")
        (medicine_json m)

  -- convert_supplies_to_json: `alloc i` says whether its call number `i` of cJSON_CreateObject
  -- finds memory. The outer `none` is a read through a NULL pointer, the inner one the result NULL.
  unfoldable pub convert_supplies_to_json :
      (ℕ → Bool) → Option FoodSupply → Option MedicineSupply → Option (Option Json)
  convert_supplies_to_json alloc food medicine =
      if alloc 0 && alloc 1
      then elim food [
        | none ↦ none
        | some f ↦
            if alloc 2
            then elim medicine [ none ↦ none | some m ↦ some (some (supplies_json f m)) ]
            else some none
      ]
      else some none
