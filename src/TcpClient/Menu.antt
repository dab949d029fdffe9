-- ===== src/TcpClient/Menu.antt =====
-- handle_user_input of src/clients/tcp_client.c: what the client sends for the user's answers to
-- the menus. `none` is a call of fgets or scanf that fails.
use shelter_server.Prelude.{
  ℤ, String, Bytes, text, bytes_eq, Bool, Option, none, some, ◌++◌, [], ◌∷◌, if◌then◌else◌,
}
use shelter_server.Json.{CJson}

-- The user's answers in one round of the loop, to the menu, to the choice of a resource and of an
-- item of it, and the amount.
pub record Input : Type 0 where
  pub choice : Option Bytes
  pub resource : Option Bytes
  pub item : Option Bytes
  pub amount : Option ℤ

-- A line as fgets stores it.
abbrev pub typed : String → Bytes
typed s = text s ++ 10 ∷ []

unfoldable pub food_name : Bytes → Option Bytes
unfolding bytes_eq
food_name item =
    if bytes_eq item (typed "1")
    then some (text "meat")
    else if bytes_eq item (typed "2")
    then some (text "vegetables")
    else if bytes_eq item (typed "3")
    then some (text "fruits")
    else if bytes_eq item (typed "4")
    then some (text "water")
    else none

unfoldable pub medicine_name : Bytes → Option Bytes
unfolding bytes_eq
medicine_name item =
    if bytes_eq item (typed "1")
    then some (text "antibiotics")
    else if bytes_eq item (typed "2")
    then some (text "analgesics")
    else if bytes_eq item (typed "3")
    then some (text "bandages")
    else none

module _ (c : CJson) where
  open c use {Json, create_object, create_number, create_string, add_item}

  -- A round sends a request, or only goes on, or ends the function, or leaves the program.
  pub data Turn : Type 0 where
    asked : Json → Turn
    repeated : Turn
    returned : Turn
    left : Turn

  unfoldable pub request_json : String → Json
  request_json m = add_item create_object (text "message") (create_string (text m))

  unfoldable pub item_json : Bytes → ℤ → Json
  item_json name amount = add_item create_object name (create_number amount)

  unfoldable pub ask_item : String → Option Bytes → ℤ → Turn
  unfolding request_json item_json
  ask_item section none amount = repeated
  ask_item section (some name) amount =
      asked (add_item (request_json "update") (text section) (item_json name amount))

  -- The item is read before the amount, and looked at after both.
  unfoldable pub read_item : String → (Bytes → Option Bytes) → Option Bytes → Option ℤ → Turn
  unfolding ask_item
  read_item section names none amount = returned
  read_item section names (some item) none = returned
  read_item section names (some item) (some amount) = ask_item section (names item) amount

  unfoldable pub read_resource : Option Bytes → Option Bytes → Option ℤ → Turn
  unfolding read_item bytes_eq food_name medicine_name
  read_resource none item amount = returned
  read_resource (some resource) item amount =
      if bytes_eq resource (typed "1")
      then read_item "food" food_name item amount
      else if bytes_eq resource (typed "2")
      then read_item "medicine" medicine_name item amount
      else repeated

  unfoldable pub choose : Bool → Bytes → Input → Turn
  unfolding read_resource bytes_eq request_json
  choose authenticated choice input =
      if bytes_eq choice (typed "1")
      then asked (request_json "status")
      else if bytes_eq choice (typed "2")
      then (if authenticated
          then read_resource input.resource input.item input.amount
          else repeated)
      else if bytes_eq choice (typed "3")
      then asked (request_json "summary")
      else if bytes_eq choice (typed "4")
      then left
      else repeated

  unfoldable pub choose_if_read : Bool → Option Bytes → Input → Turn
  unfolding choose
  choose_if_read authenticated none input = returned
  choose_if_read authenticated (some choice) input = choose authenticated choice input

  unfoldable pub menu_turn : Bool → Input → Turn
  unfolding choose_if_read
  menu_turn authenticated input = choose_if_read authenticated input.choice input
