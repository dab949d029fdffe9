-- ===== src/Supplies/RoundTrip.antt =====
-- convert_supplies_to_json of src/server/server.c and update_supplies_from_json of
-- lib/suppliesData/src/supplies_module.c, one after the other.
use shelter_server.Prelude.{
  ℤ, pos, add_int, ◌≡◌, refl, ◌∙◌, Bytes, text, same_name, none, some, Bool, true, not, ◌&&◌, List,
  [], ◌∷◌, ◌++◌, arith,
}
use shelter_server.Json.{CJson}
use shelter_server.Supplies.{
  FoodSupply, MedicineSupply, no_food, no_medicine, add_clamped, update_item, update_food,
  update_medicine, section_of, update_food_at, update_medicine_at, food_json, medicine_json,
  supplies_json, add_numbers,
}
use shelter_server.Supplies.Stock.{IsStock, IsFoodStock, IsMedicineStock, IsStock-IsInt}

from_zero : (s : ℤ) → IsStock s → add_clamped (pos 0) s ≡ s
unfolding add_clamped add_int
from_zero (pos n) h = ground arith
from_zero s h = absurd h

-- No field of the list has the name.
differs : Bytes → List (Bytes × ℤ) → Bool
differs k [] = true
differs k ((j, n) ∷ rest) = not (same_name j k) && differs k rest

module _ (c : CJson) where
  open c use {
    Json, get_object_item, is_object, is_number, value_int, create_object, create_number, add_item,
    get_created, get_added_self, get_added_other, is_object_created, is_object_added,
    is_number_created, value_int_created,
  }

  get-add_numbers :
      (j : Json) (k : Bytes) (fields : List (Bytes × ℤ))
      → differs k fields ≡ true
      → get_object_item (add_numbers c j fields) k ≡ get_object_item j k
  unfolding add_numbers differs
  get-add_numbers j k [] h = refl
  get-add_numbers j k ((l, n) ∷ rest) h =
      get-add_numbers (add_item j l (create_number n)) k rest (ground arith)
      ∙ get_added_other j l k (create_number n) (ground arith)

  -- A field is found in the object of all of them.
  get-add_numbers_self :
      (j : Json) (before : List (Bytes × ℤ)) (k : Bytes) (n : ℤ) (after : List (Bytes × ℤ))
      → get_object_item j k ≡ none
      → differs k before ≡ true
      → differs k after ≡ true
      → get_object_item (add_numbers c j (before ++ (k, n) ∷ after)) k ≡ some (create_number n)
  unfolding add_numbers differs
  get-add_numbers_self j [] k n after free b a =
      get-add_numbers (add_item j k (create_number n)) k after a
      ∙ get_added_self j k (create_number n) free
  get-add_numbers_self j ((l, m) ∷ before) k n after free b a =
      get-add_numbers_self (add_item j l (create_number m)) before k n after
        (get_added_other j l k (create_number m) (ground arith) ∙ free) (ground arith) a

  is_object-add_numbers :
      (j : Json) (fields : List (Bytes × ℤ)) → is_object (add_numbers c j fields) ≡ is_object j
  unfolding add_numbers
  is_object-add_numbers j [] = refl
  is_object-add_numbers j ((k, n) ∷ rest) =
      is_object-add_numbers (add_item j k (create_number n)) rest
      ∙ is_object_added j k (create_number n)

  -- An empty stock takes over the number of such a field.
  read_back :
      (before : List (Bytes × ℤ)) (k : Bytes) (s : ℤ) (after : List (Bytes × ℤ))
      → IsStock s
      → differs k before ≡ true
      → differs k after ≡ true
      → update_item c
          (get_object_item (add_numbers c create_object (before ++ (k, s) ∷ after)) k)
          (pos 0)
        ≡ s
  unfolding update_item
  read_back before k s after h b a =
      rw
        (
          get-add_numbers_self create_object before k s after (get_created k) b a,
          update_item,
          is_number_created s,
          value_int_created s (IsStock-IsInt s h),
        )
        (from_zero s h)

  read_food : (f : FoodSupply) → IsFoodStock f → update_food c (some (food_json c f)) no_food ≡ f
  unfolding update_food food_json differs same_name
  read_food f h =
      let meat : Bytes × ℤ = (text "meat", f.meat) in
      let vegetables : Bytes × ℤ = (text "vegetables", f.vegetables) in
      let fruits : Bytes × ℤ = (text "fruits", f.fruits) in
      let water : Bytes × ℤ = (text "water", f.water) in
      λ i. record {
        meat =
            read_back [] (text "meat") f.meat (vegetables ∷ fruits ∷ water ∷ []) h.meat refl refl i;
        vegetables =
            read_back (meat ∷ []) (text "vegetables") f.vegetables (fruits ∷ water ∷ [])
              h.vegetables refl refl i;
        fruits =
            read_back (meat ∷ vegetables ∷ []) (text "fruits") f.fruits (water ∷ []) h.fruits refl
              refl i;
        water =
            read_back (meat ∷ vegetables ∷ fruits ∷ []) (text "water") f.water [] h.water refl refl
              i;
      }

  read_medicine :
      (m : MedicineSupply)
      → IsMedicineStock m
      → update_medicine c (some (medicine_json c m)) no_medicine ≡ m
  unfolding update_medicine medicine_json differs same_name
  read_medicine m h =
      let antibiotics : Bytes × ℤ = (text "antibiotics", m.antibiotics) in
      let analgesics : Bytes × ℤ = (text "analgesics", m.analgesics) in
      let bandages : Bytes × ℤ = (text "bandages", m.bandages) in
      λ i. record {
        antibiotics =
            read_back [] (text "antibiotics") m.antibiotics (analgesics ∷ bandages ∷ [])
              h.antibiotics refl refl i;
        analgesics =
            read_back (antibiotics ∷ []) (text "analgesics") m.analgesics (bandages ∷ [])
              h.analgesics refl refl i;
        bandages =
            read_back (antibiotics ∷ analgesics ∷ []) (text "bandages") m.bandages [] h.bandages
              refl refl i;
      }

  -- The sections of the object of both stocks.
  section_food :
      (f : FoodSupply) (m : MedicineSupply)
      → section_of c (get_object_item (supplies_json c f m) (text "food")) ≡ some (food_json c f)
  unfolding supplies_json section_of food_json same_name
  section_food f m = rw (
    get_added_other _ (text "medicine") (text "food") (medicine_json c m) refl,
    get_added_self create_object (text "food") _ (get_created (text "food")),
    section_of,
    is_object-add_numbers create_object _,
    is_object_created,
  )

  section_medicine :
      (f : FoodSupply) (m : MedicineSupply)
      → section_of c (get_object_item (supplies_json c f m) (text "medicine"))
        ≡ some (medicine_json c m)
  unfolding supplies_json section_of medicine_json same_name
  section_medicine f m = rw (
    get_added_self _ (text "medicine") _ (
        get_added_other create_object (text "food") (text "medicine") _ refl
        ∙ get_created (text "medicine")),
    section_of,
    is_object-add_numbers create_object _,
    is_object_created,
  )

  -- For stocks in range, the report of convert_supplies_to_json read as an update by a server with
  -- empty stocks gives exactly the stocks reported.
  pub update-supplies_json :
      (f : FoodSupply) (m : MedicineSupply)
      → IsFoodStock f
      → IsMedicineStock m
      → (update_food_at c (some no_food) (supplies_json c f m) ≡ some (some f))
        × (update_medicine_at c (some no_medicine) (supplies_json c f m) ≡ some (some m))
  unfolding update_food_at update_medicine_at
  update-supplies_json f m hf hm =
      (rw (section_food f m, read_food f hf), rw (section_medicine f m, read_medicine m hm))
