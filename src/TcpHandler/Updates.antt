-- ===== src/TcpHandler/Updates.antt =====
-- A TCP client's request for an update.
use shelter_server.Prelude.{
  ℕ, ◌≡◌, ◌<◌, refl, ap, ◌∙◌, Bytes, text, snprintf, ◌++◌, false, some, ◌∷◌, length, ◌==◌, arith,
}
use shelter_server.Json.{CJson}
use shelter_server.Supplies.{
  FoodSupply, MedicineSupply, section_of, update_food, update_medicine, update_food_at,
  update_medicine_at,
}
use shelter_server.Server.{Server, Returns}
use shelter_server.Invariant.Results.{Returns-bind, log_event-Returns}
use shelter_server.Net.{Ntop, client_ip, get_tcp_client_ip}
use shelter_server.Log.{log_event}
use shelter_server.Summary.{update_supplies_from_json}
use shelter_server.TcpHandler.{
  buffer_size, received_string, receive_tcp_json, update_if_present, handle_update, handle_message,
  handle_request, handle_received, check_tcp_clients_messages,
}
use shelter_server.Invariant.Core.{core, SameCore}

module _ (c : CJson) (net : Ntop) where
  open c use {Json, parse, get_object_item, value_string}

  -- The stocks after the update of a request.
  abbrev pub IsUpdated : Json → FoodSupply → MedicineSupply → Server → Type 0
  IsUpdated json f m t =
      (t.food ≡ some (update_food c (section_of c (get_object_item json (text "food"))) f))
      × (t.medicine
          ≡ some (update_medicine c (section_of c (get_object_item json (text "medicine"))) m))

  updated :
      (json : Json) (f : FoodSupply) (m : MedicineSupply) (t : Server)
      → t.food ≡ some f
      → t.medicine ≡ some m
      → Returns (IsUpdated json f m) (update_if_present c net t.food t.medicine json t)
  unfolding update_if_present update_supplies_from_json update_food_at update_medicine_at
  updated json f m t hf hm = rw (hf, hm) (refl, refl)

  handle_update-Returns :
      (fd : ℕ) (json : Json) (s : Server) (home : Bytes) (f : FoodSupply) (m : MedicineSupply)
      → s.host.home ≡ some home
      → s.food ≡ some f
      → s.medicine ≡ some m
      → Returns (IsUpdated json f m) (handle_update c net fd json s)
  unfolding handle_update get_tcp_client_ip
  handle_update-Returns fd json s home f m h hf hm =
      Returns-bind (SameCore (core s)) _ (log_event line _) _
        (log_event-Returns line home (core s) _ h refl)
        (λ _ t e. updated json f m t (ap (λ k. k.food) e ∙ hf) (ap (λ k. k.medicine) e ∙ hm))
    where
      line : Bytes
      line = snprintf 256 (text "Update request from TCP client " ++ client_ip net (s.host.peer fd))

  handle_message-Returns :
      (fd : ℕ) (json : Json) (s : Server) (home : Bytes) (f : FoodSupply) (m : MedicineSupply)
      → s.host.home ≡ some home
      → s.food ≡ some f
      → s.medicine ≡ some m
      → Returns (IsUpdated json f m) (handle_message c net fd json (text "update") s)
  unfolding handle_message
  handle_message-Returns fd json s home f m h hf hm =
      Returns-bind _ _ (handle_update c net fd json s) _
        (handle_update-Returns fd json s home f m h hf hm) (λ _ t e. e)

  -- With HOME set and both segments there, a TCP client's update is made whatever the client is:
  -- any text shorter than the buffer that parses and whose "message" is the string "update" changes
  -- both stocks as update_supplies_from_json says, and the server returns from it. No condition is
  -- on a "hostname" or on an earlier authentication.
  pub any_client_updates :
      (fd : ℕ) (b : ℕ) (bs : Bytes) (json message : Json) (s : Server) (home : Bytes)
      (f : FoodSupply) (m : MedicineSupply)
      → s.host.home ≡ some home
      → s.food ≡ some f
      → s.medicine ≡ some m
      → length (b ∷ bs) < buffer_size
      → parse (received_string (b ∷ bs)) ≡ some json
      → get_object_item json (text "message") ≡ some message
      → value_string message ≡ some (text "update")
      → Returns (IsUpdated json f m) (check_tcp_clients_messages c net fd (some (b ∷ bs)) s)
  unfolding check_tcp_clients_messages receive_tcp_json
  any_client_updates fd b bs json message s home f m h hf hm short parsed found v =
      let other : (length (b ∷ bs) == buffer_size) ≡ false = ground arith in
      rw other (
        rw (parsed, handle_received)
          (rw (found, handle_request) (rw v (handle_message-Returns fd json s home f m h hf hm))))
