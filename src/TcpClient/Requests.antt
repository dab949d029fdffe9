-- ===== src/TcpClient/Requests.antt =====
-- The requests that the loop of handle_user_input of src/clients/tcp_client.c sends.
use shelter_server.Prelude.{
  ℕ, ℤ, ◌≡◌, refl, String, Bytes, text, same_name, bytes_eq, Bool, true, false, inl, inr, ◌⊎◌,
  Option, none, some, List, [], ◌∷◌, if◌then◌else◌,
}
use shelter_server.Json.{CJson}
use shelter_server.Client.Rounds.{Session}
use shelter_server.TcpClient.Menu.{
  Input, Turn, asked, repeated, returned, left, typed, food_name, medicine_name, item_json,
  request_json, ask_item, read_item, read_resource, choose, choose_if_read, menu_turn,
}
use shelter_server.TcpClient.Reading.{get_message}
use shelter_server.TcpClient.Session.{send_turn, handle_user_input}

module _ (c : CJson) where
  open c use {
    Json, print, get_object_item, create_object, create_string, get_created, get_added_self,
  }

  -- What a round asks for has the property.
  abbrev pub Asks : (Json → Type 0) → Turn c → Type 0
  Asks P (asked j) = P j
  Asks P repeated = Unit
  Asks P returned = Unit
  Asks P left = Unit

  pub Asks-if :
      (P : Json → Type 0) (b : Bool) (t u : Turn c)
      → Asks P t
      → Asks P u
      → Asks P (if b then t else u)
  Asks-if P true t u h k = h
  Asks-if P false t u h k = k

  abbrev pub HasMessage : Json → String → Type 0
  HasMessage j m = get_object_item j (text "message") ≡ some (create_string (text m))

  -- A request that the menu offers: an update only to a client that counts as authenticated.
  abbrev pub IsOffered : Bool → Json → Type 0
  IsOffered authenticated j =
      HasMessage j "status"
      ⊎ HasMessage j "summary"
      ⊎ (HasMessage j "update" × (authenticated ≡ true))

  request_message : (m : String) → HasMessage (request_json c m) m
  unfolding request_json
  request_message m = get_added_self create_object (text "message") _ (get_created (text "message"))

  item-IsOffered :
      (section : String) (names : Bytes → Option Bytes) (item : Option Bytes) (amount : Option ℤ)
      → same_name (text section) (text "message") ≡ false
      → Asks (IsOffered true) (read_item c section names item amount)
  unfolding read_item ask_item
  item-IsOffered section names none amount h = tt
  item-IsOffered section names (some item) none h = tt
  item-IsOffered section names (some item) (some v) h = named (names item)
    where
      named : (o : Option Bytes) → Asks (IsOffered true) (ask_item c section o v)
      named none = tt
      named (some n) = inr (inr (get_message c (text section) (item_json c n v) h, refl))

  resource-IsOffered :
      (resource item : Option Bytes) (amount : Option ℤ)
      → Asks (IsOffered true) (read_resource c resource item amount)
  unfolding read_resource same_name
  resource-IsOffered none item amount = tt
  resource-IsOffered (some resource) item amount =
      Asks-if _ (bytes_eq resource (typed "1")) _ _
        (item-IsOffered "food" food_name item amount refl)
        (Asks-if _ (bytes_eq resource (typed "2")) _ _
          (item-IsOffered "medicine" medicine_name item amount refl) tt)

  update-IsOffered :
      (authenticated : Bool) (input : Input)
      → Asks (IsOffered authenticated) (
          if authenticated
          then read_resource c input.resource input.item input.amount
          else repeated)
  update-IsOffered true input = resource-IsOffered input.resource input.item input.amount
  update-IsOffered false input = tt

  choice-IsOffered :
      (authenticated : Bool) (choice : Option Bytes) (input : Input)
      → Asks (IsOffered authenticated) (choose_if_read c authenticated choice input)
  unfolding choose_if_read choose
  choice-IsOffered authenticated none input = tt
  choice-IsOffered authenticated (some choice) input =
      Asks-if _ (bytes_eq choice (typed "1")) _ _ (inl (request_message "status")) (
        Asks-if _ (bytes_eq choice (typed "2")) _ _ (update-IsOffered authenticated input) (
          Asks-if _ (bytes_eq choice (typed "3")) _ _ (inr (inl (request_message "summary")))
            (Asks-if _ (bytes_eq choice (typed "4")) _ _ tt tt)))

  -- All messages are texts of such requests.
  abbrev pub AreOffered : Bool → List Bytes → Type 0
  AreOffered authenticated [] = Unit
  AreOffered authenticated (message ∷ messages) =
      ((j : Json) × (message ≡ print j) × IsOffered authenticated j)
      × AreOffered authenticated messages

  send_turn-AreOffered :
      (authenticated : Bool) (pid_child : ℕ) (t : Turn c) (rest : Session)
      → Asks (IsOffered authenticated) t
      → AreOffered authenticated rest.sent
      → AreOffered authenticated (send_turn c t pid_child rest).sent
  unfolding send_turn
  send_turn-AreOffered authenticated pid_child (asked j) rest h k = ((j, refl, h), k)
  send_turn-AreOffered authenticated pid_child repeated rest h k = k
  send_turn-AreOffered authenticated pid_child returned rest h k = tt
  send_turn-AreOffered authenticated pid_child left rest h k = tt

  -- Whatever the user answers, in any number of rounds, every message that the loop of the TCP client
  -- sends is the text of a JSON object whose "message" is "status", "summary" or, only if the client
  -- counts as authenticated, "update".
  pub handle_user_input-AreOffered :
      (authenticated : Bool) (pid_child : ℕ) (inputs : List Input)
      → AreOffered authenticated (handle_user_input c authenticated pid_child inputs).sent
  unfolding handle_user_input
  handle_user_input-AreOffered authenticated pid_child [] = tt
  handle_user_input-AreOffered authenticated pid_child (input ∷ inputs) =
      send_turn-AreOffered authenticated pid_child (menu_turn c authenticated input) _
        (unfold menu_turn in choice-IsOffered authenticated input.choice input)
        (handle_user_input-AreOffered authenticated pid_child inputs)
