-- ===== src/TcpClient/Delivery.antt =====
-- The updates that the menus of src/clients/tcp_client.c ask for, as check_tcp_clients_messages of
-- src/server/server.c makes them.
use shelter_server.Prelude.{
  ℕ, ℤ, IsInt, ◌<◌, ◌≡◌, ap, ◌∙◌, Bytes, text, true, Option, none, some, ◌∷◌, length,
}
use shelter_server.Json.{CJson}
use shelter_server.Supplies.{FoodSupply, MedicineSupply, update_food_at, update_medicine_at}
use shelter_server.Server.{Server, Returns}
use shelter_server.Net.{Ntop}
use shelter_server.Invariant.Results.{Returns-map}
use shelter_server.TcpHandler.{buffer_size, received_string, check_tcp_clients_messages}
use shelter_server.TcpHandler.Updates.{any_client_updates}
use shelter_server.TcpClient.Menu.{asked, menu_turn, request_json, item_json}
use shelter_server.TcpClient.Reading.{food_key, medicine_key}
use shelter_server.TcpClient.Items.{
  Item, food_item, medicine_item, item_input, item_food, item_medicine, HasStocks,
}
use shelter_server.TcpClient.Updates.{
  IsUpdate, food_request, medicine_request, food_named, medicine_named,
}

-- What an update stores, where it meets no NULL pointer.
abbrev stored : {A : Type 0} → A → Option (Option A) → A
stored d none = d
stored d (some none) = d
stored d (some (some a)) = a

module _ (c : CJson) where
  open c use {Json, parse, print, add_item}

  abbrev pub item_request : Item → ℤ → Json
  item_request (food_item item) v =
      add_item (request_json c "update") (text "food") (item_json c (food_key item) v)
  item_request (medicine_item item) v =
      add_item (request_json c "update") (text "medicine") (item_json c (medicine_key item) v)

  item_request-IsUpdate :
      (item : Item) (v : ℤ)
      → IsInt v
      → IsUpdate c (item_request item v) (item_food item v) (item_medicine item v)
  item_request-IsUpdate (food_item item) v h = food_request c item v h
  item_request-IsUpdate (medicine_item item) v h = medicine_request c item v h

  request_asked :
      (item : Item) (v : ℤ) → menu_turn c true (item_input item v) ≡ asked (item_request item v)
  request_asked (food_item item) v = food_named c item v
  request_asked (medicine_item item) v = medicine_named c item v

  module _ (net : Ntop) where
    made :
        (j : Json) (fd b : ℕ) (bs : Bytes) (s : Server) (home : Bytes) (f : FoodSupply)
        (m : MedicineSupply) (change_food : FoodSupply → FoodSupply)
        (change_medicine : MedicineSupply → MedicineSupply)
        → IsUpdate c j change_food change_medicine
        → s.host.home ≡ some home
        → s.food ≡ some f
        → s.medicine ≡ some m
        → length (b ∷ bs) < buffer_size
        → parse (received_string (b ∷ bs)) ≡ some j
        → Returns
            (HasStocks (change_food f) (change_medicine m))
            (check_tcp_clients_messages c net fd (some (b ∷ bs)) s)
    unfolding update_food_at update_medicine_at
    made j fd b bs s home f m change_food change_medicine u h hf hm short parsed =
        Returns-map _ _ (check_tcp_clients_messages c net fd (some (b ∷ bs)) s)
          (any_client_updates c net fd b bs j u.0.0 s home f m h hf hm short parsed u.0.1 u.0.2)
          (λ t k.
            (k.0 ∙ ap (λ o. some (stored f o)) (u.1 f), k.1 ∙ ap (λ o. some (stored m o)) (u.2 m)))

    -- When the user of a TCP client that counts as authenticated asks to update an item by an amount,
    -- an `int`, the client sends a request whose handling by the server, with HOME set and both
    -- segments there, returns, with the amount added to the stock of that item and no other stock
    -- changed, whoever the client is. The text of the request is taken to be shorter than the buffer
    -- and to read back as the request.
    pub update-made :
        (item : Item) (v : ℤ) (fd b : ℕ) (bs : Bytes) (s : Server) (home : Bytes) (f : FoodSupply)
        (m : MedicineSupply)
        → IsInt v
        → s.host.home ≡ some home
        → s.food ≡ some f
        → s.medicine ≡ some m
        → print (item_request item v) ≡ b ∷ bs
        → length (b ∷ bs) < buffer_size
        → parse (received_string (b ∷ bs)) ≡ some (item_request item v)
        → (menu_turn c true (item_input item v) ≡ asked (item_request item v))
          × Returns
              (HasStocks (item_food item v f) (item_medicine item v m))
              (check_tcp_clients_messages c net fd (some (print (item_request item v))) s)
    update-made item v fd b bs s home f m i h hf hm p short parsed = (
      request_asked item v,
      rw p (
          made (item_request item v) fd b bs s home f m (item_food item v) (item_medicine item v)
            (item_request-IsUpdate item v i) h hf hm short parsed),
    )
