-- ===== src/UdpClient/Requests.antt =====
-- The requests that the loop of src/clients/udp_client.c sends.
use shelter_server.Prelude.{
  Bool, ℕ, ℤ, ◌<◌, ◌≡◌, refl, ◌∙◌, String, Bytes, text, same_name, bytes_eq, false, Bool-cases, inl,
  inr, ◌⊎◌, Option, none, some, List, [], ◌∷◌, length, leb, arith,
}
use shelter_server.Json.{CJson}
use shelter_server.TcpHandler.{buffer_size}
use shelter_server.TcpClient.Menu.{
  Input, Turn, asked, repeated, returned, left, typed, food_name, medicine_name, item_json,
}
use shelter_server.TcpClient.Requests.{Asks, Asks-if, HasMessage}
use shelter_server.UdpClient.Menu.{
  send_json, send_json_lem, named_request, ask_named_item, read_named_item, read_named_resource,
  choose_named, choose_named_if_read, datagram_turn,
}
use shelter_server.Client.Rounds.{Session}
use shelter_server.UdpClient.Session.{after_sending, round_of, rounds}

module _ (c : CJson) where
  open c use {
    Json, print, get_object_item, value_string, create_object, create_string, add_item, get_created,
    get_added_self, get_added_other,
  }

  pub get_hostname :
      (name : Bytes) (m : String)
      → get_object_item (named_request c name m) (text "hostname") ≡ some (create_string name)
  unfolding named_request same_name
  get_hostname name m =
      get_added_other _ (text "message") (text "hostname") _ refl
      ∙ get_added_self create_object (text "hostname") _ (get_created (text "hostname"))

  pub get_message :
      (name : Bytes) (m : String)
      → get_object_item (named_request c name m) (text "message") ≡ some (create_string (text m))
  unfolding named_request same_name
  get_message name m = get_added_self _ (text "message") _ (
      get_added_other create_object (text "hostname") (text "message") _ refl
      ∙ get_created (text "message"))

  -- A request of the client with this name.
  abbrev pub IsNamed : Bytes → Json → Type 0
  IsNamed name j =
      (get_object_item j (text "hostname") ≡ some (create_string name))
      × (HasMessage c j "status" ⊎ HasMessage c j "update" ⊎ HasMessage c j "summary")

  abbrev pub AsksNamed : Bytes → Turn c → Type 0
  AsksNamed name = Asks c (IsNamed name)

  -- A section of another name hides neither item.
  section-IsNamed :
      (name : Bytes) (section : String) (obj : Json)
      → same_name (text section) (text "hostname") ≡ false
      → same_name (text section) (text "message") ≡ false
      → IsNamed name (add_item (named_request c name "update") (text section) obj)
  section-IsNamed name section obj h k = (
    get_added_other _ (text section) (text "hostname") obj h ∙ get_hostname name "update",
    inr (inl (get_added_other _ (text section) (text "message") obj k ∙ get_message name "update")),
  )

  item-AsksNamed :
      (name : Bytes) (section : String) (names : Bytes → Option Bytes) (item : Option Bytes)
      (amount : Option ℤ)
      → same_name (text section) (text "hostname") ≡ false
      → same_name (text section) (text "message") ≡ false
      → AsksNamed name (read_named_item c name section names item amount)
  unfolding read_named_item ask_named_item
  item-AsksNamed name section names none amount h k = tt
  item-AsksNamed name section names (some item) none h k = tt
  item-AsksNamed name section names (some item) (some v) h k = asked_item (names item)
    where
      asked_item : (o : Option Bytes) → AsksNamed name (ask_named_item c name section o v)
      asked_item none = tt
      asked_item (some n) = section-IsNamed name section (item_json c n v) h k

  resource-AsksNamed :
      (name : Bytes) (resource item : Option Bytes) (amount : Option ℤ)
      → AsksNamed name (read_named_resource c name resource item amount)
  unfolding read_named_resource same_name
  resource-AsksNamed name none item amount = tt
  resource-AsksNamed name (some resource) item amount =
      Asks-if c (IsNamed name) (bytes_eq resource (typed "1")) _ _
        (item-AsksNamed name "food" food_name item amount refl refl)
        (Asks-if c (IsNamed name) (bytes_eq resource (typed "2")) _ _
          (item-AsksNamed name "medicine" medicine_name item amount refl refl) tt)

  choice-AsksNamed :
      (name : Bytes) (choice : Option Bytes) (input : Input)
      → AsksNamed name (choose_named_if_read c name choice input)
  unfolding choose_named_if_read choose_named
  choice-AsksNamed name none input = tt
  choice-AsksNamed name (some choice) input =
      Asks-if c (IsNamed name) (bytes_eq choice (typed "1")) _ _
        (get_hostname name "status", inl (get_message name "status"))
        (Asks-if c (IsNamed name) (bytes_eq choice (typed "2")) _ _
          (resource-AsksNamed name input.resource input.item input.amount)
          (Asks-if c (IsNamed name) (bytes_eq choice (typed "3")) _ _
            (get_hostname name "summary", inr (inr (get_message name "summary")))
            (Asks-if c (IsNamed name) (bytes_eq choice (typed "4")) _ _ tt tt)))

  -- A message that was sent: the text of such a request, shorter than the buffer.
  abbrev pub IsSent : Bytes → Bytes → Type 0
  IsSent name message =
      (j : Json) × (message ≡ print j) × IsNamed name j × (length message < buffer_size)

  abbrev pub AllSent : Bytes → List Bytes → Type 0
  AllSent name [] = Unit
  AllSent name (message ∷ messages) = IsSent name message × AllSent name messages

  sent_after :
      (name : Bytes) (ipv6 : Bool) (j : Json) (s : Session)
      → IsNamed name j
      → AllSent name s.sent
      → AllSent name (after_sending (send_json c ipv6 j) s).sent
  sent_after name ipv6 j s h k =
      rw (send_json_lem c ipv6 j) (elim (Bool-cases (leb buffer_size (length (print j)))) [
        | inl long ↦ rw long k
        | inr short ↦ rw short ((j, refl, h, ground arith), k)
      ])

  round_sent :
      (name : Bytes) (ipv6 : Bool) (pid_child : ℕ) (t : Turn c) (rest : Session)
      → AsksNamed name t
      → AllSent name rest.sent
      → AllSent name (round_of c ipv6 t pid_child rest).sent
  unfolding round_of
  round_sent name ipv6 pid_child (asked j) rest h k = sent_after name ipv6 j rest h k
  round_sent name ipv6 pid_child repeated rest h k = k
  round_sent name ipv6 pid_child returned rest h k = tt
  round_sent name ipv6 pid_child left rest h k = tt

  -- Whatever the user answers, in any number of rounds and over either family, every message that the
  -- loop sends is the text of a JSON object that is shorter than the buffer, whose "hostname" is the
  -- client's name and whose "message" is "status", "update" or "summary".
  pub rounds-requests :
      (ipv6 : Bool) (name : Bytes) (pid_child : ℕ) (inputs : List Input)
      → AllSent name (rounds c ipv6 name pid_child inputs).sent
  unfolding rounds
  rounds-requests ipv6 name pid_child [] = tt
  rounds-requests ipv6 name pid_child (input ∷ inputs) =
      round_sent name ipv6 pid_child (datagram_turn c name input) _
        (unfold datagram_turn in choice-AsksNamed name input.choice input)
        (rounds-requests ipv6 name pid_child inputs)
