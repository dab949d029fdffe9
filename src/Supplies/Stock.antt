-- ===== src/Supplies/Stock.antt =====
-- The amounts that update_supplies_from_json of lib/suppliesData/src/supplies_module.c stores.
use shelter_server.Prelude.{
  ℤ, pos, negsuc, ◌+ℤ◌, ltb_ℤ, IsInt, add_int, ◌^◌, ◌<◌, ◌≡◌, Option, none, some, arith,
  if◌then◌else◌,
}
use shelter_server.Json.{CJson}
use shelter_server.Supplies.{
  FoodSupply, MedicineSupply, add_clamped, update_item, update_food, update_medicine,
}

-- A count that is not negative and fits an `int`.
abbrev pub IsStock : ℤ → Type 0
IsStock (pos n) = n < 2 ^ 31
IsStock (negsuc n) = ⊥

pub IsStock-IsInt : (s : ℤ) → IsStock s → IsInt s
IsStock-IsInt (pos n) h = h
IsStock-IsInt (negsuc n) h = absurd h

pub add_clamped-IsStock : (s d : ℤ) → IsStock s → IsInt d → IsStock (add_clamped s d)
unfolding add_clamped add_int
add_clamped-IsStock (pos s) (pos d) h k = ground arith
add_clamped-IsStock (pos s) (negsuc d) h k = ground arith
add_clamped-IsStock (negsuc s) d h k = absurd h

-- The sum that the stock should have: no less than zero.
abbrev pub cut_at_zero : ℤ → ℤ
cut_at_zero z = if ltb_ℤ z (pos 0) then pos 0 else z

-- An update of a stock, an `int` that is not negative, by an `int`: a sum below 2 ^ 31 is stored,
-- or zero where it is negative. A larger sum wraps to a negative number, and the test then empties
-- the stock.
pub add_clamped_lem :
    (s d : ℤ)
    → IsStock s
    → IsInt d
    → add_clamped s d ≡ (if ltb_ℤ (s +ℤ d) (pos (2 ^ 31)) then cut_at_zero (s +ℤ d) else pos 0)
unfolding add_clamped add_int
add_clamped_lem (pos s) (pos d) h k = ground arith
add_clamped_lem (pos s) (negsuc d) h k = ground arith
add_clamped_lem (negsuc s) d h k = absurd h

pub record IsFoodStock (f : FoodSupply) : Type 0 where
  pub meat : IsStock f.meat
  pub vegetables : IsStock f.vegetables
  pub fruits : IsStock f.fruits
  pub water : IsStock f.water

pub record IsMedicineStock (m : MedicineSupply) : Type 0 where
  pub antibiotics : IsStock m.antibiotics
  pub analgesics : IsStock m.analgesics
  pub bandages : IsStock m.bandages

-- A segment that is there holds stocks.
abbrev pub FoodSegment : Option FoodSupply → Type 0
FoodSegment none = Unit
FoodSegment (some f) = IsFoodStock f

abbrev pub MedicineSegment : Option MedicineSupply → Type 0
MedicineSegment none = Unit
MedicineSegment (some m) = IsMedicineStock m

module _ (c : CJson) where
  open c use {Json, get_object_item, value_int, value_int_IsInt, is_number}

  pub update_item-IsStock :
      (item : Option Json) (s : ℤ) → IsStock s → IsStock (update_item c item s)
  unfolding update_item
  update_item-IsStock none s h = h
  update_item-IsStock (some item) s h =
      ground (arith, add_clamped-IsStock s (value_int item) h (value_int_IsInt item))

  pub update_food-IsFoodStock :
      (obj : Option Json) (f : FoodSupply) → IsFoodStock f → IsFoodStock (update_food c obj f)
  unfolding update_food
  update_food-IsFoodStock none f h = h
  update_food-IsFoodStock (some obj) f h = record {
    meat = update_item-IsStock _ f.meat h.meat;
    vegetables = update_item-IsStock _ f.vegetables h.vegetables;
    fruits = update_item-IsStock _ f.fruits h.fruits;
    water = update_item-IsStock _ f.water h.water;
  }

  pub update_medicine-IsMedicineStock :
      (obj : Option Json) (m : MedicineSupply)
      → IsMedicineStock m
      → IsMedicineStock (update_medicine c obj m)
  unfolding update_medicine
  update_medicine-IsMedicineStock none m h = h
  update_medicine-IsMedicineStock (some obj) m h = record {
    antibiotics = update_item-IsStock _ m.antibiotics h.antibiotics;
    analgesics = update_item-IsStock _ m.analgesics h.analgesics;
    bandages = update_item-IsStock _ m.bandages h.bandages;
  }
