-- ===== src/Json.antt =====
-- The JSON library that the server calls (lib/cJSON, a copy of another project) as a parameter: the
-- calls that src/server/server.c and lib/suppliesData make, and what they rely on.
-- A call that returns NULL returns `none`; the objects that the library creates and fills through
-- pointers are values here.
pub mod Tree
use shelter_server.Prelude.{ℤ, IsInt, Bytes, ◌≡◌, Bool, true, false, Option, none, some, same_name}

pub record CJson : Type 1 where
  pub Json : Type 0
  -- cJSON_Parse, cJSON_Print, cJSON_GetObjectItem
  pub parse : Bytes → Option Json
  pub print : Json → Bytes
  pub get_object_item : Json → Bytes → Option Json
  -- `type == cJSON_Object`, `type == cJSON_Number`, the fields `valueint` and `valuestring`
  pub is_object : Json → Bool
  pub is_number : Json → Bool
  pub value_int : Json → ℤ
  pub value_string : Json → Option Bytes
  -- cJSON_CreateObject and the calls cJSON_Add...ToObject, with the value that they add
  pub create_object : Json
  pub create_number : ℤ → Json
  pub create_string : Bytes → Json
  pub add_item : Json → Bytes → Json → Json
  -- A new object has no item; an added item is found under its name, in any case of its letters,
  -- unless an item of that name was there before, and hides no item of another name.
  pub get_created : (k : Bytes) → get_object_item create_object k ≡ none
  pub get_added_self :
      (j : Json) (k : Bytes) (v : Json)
      → get_object_item j k ≡ none
      → get_object_item (add_item j k v) k ≡ some v
  pub get_added_other :
      (j : Json) (k l : Bytes) (v : Json)
      → same_name k l ≡ false
      → get_object_item (add_item j k v) l ≡ get_object_item j l
  -- Types and values of what was created.
  pub is_object_created : is_object create_object ≡ true
  pub is_object_added : (j : Json) (k : Bytes) (v : Json) → is_object (add_item j k v) ≡ is_object j
  pub is_number_created : (n : ℤ) → is_number (create_number n) ≡ true
  pub value_int_created : (n : ℤ) → IsInt n → value_int (create_number n) ≡ n
  pub value_string_created : (s : Bytes) → value_string (create_string s) ≡ some s
  -- A number has no string, and `valueint` is an `int`.
  pub value_string_number : (j : Json) → is_number j ≡ true → value_string j ≡ none
  pub value_int_IsInt : (j : Json) → IsInt (value_int j)
