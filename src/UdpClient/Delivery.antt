-- ===== src/UdpClient/Delivery.antt =====
-- The server's handling of the datagrams of src/clients/udp_client.c that ask for an update.
use shelter_server.Prelude.{
  ℕ, ℤ, IsInt, ◌<◌, ◌≡◌, refl, ap, ◌∙◌, Bytes, text, bytes_eq, Bool, true, false, some, length, leb,
  if◌then◌else◌, arith,
}
use shelter_server.Json.{CJson}
use shelter_server.Supplies.{FoodSupply, MedicineSupply}
use shelter_server.Clients.Udp.{SockAddr}
use shelter_server.Server.{Server, M, Returns, ◌>>◌}
use shelter_server.Net.{Ntop, get_udp_client_info}
use shelter_server.Log.{log_event}
use shelter_server.Registry.{add_udp_client}
use shelter_server.Summary.{update_supplies_from_json}
use shelter_server.Invariant.Core.{Core, core, SameCore}
use shelter_server.Invariant.Results.{
  Returns-bind, Returns-map, log_event-Returns, IsReady, log_event-IsReady, add_udp_client-IsReady,
}
use shelter_server.TcpHandler.{buffer_size, received_string, admin_user}
use shelter_server.UdpHandler.{
  Datagram, client_ip_of, receive_udp_json, udp_update, udp_message, udp_request, handle_datagram,
  handle_received, check_udp_clients_messages,
}
use shelter_server.TcpClient.Menu.{asked}
use shelter_server.TcpClient.Items.{
  Item, food_item, medicine_item, item_input, item_food, item_medicine, HasStocks,
}
use shelter_server.UdpClient.Menu.{send_json, send_json_lem, datagram_turn}
use shelter_server.UdpClient.Updates.{
  food_update, medicine_update, food_asked, medicine_asked, food_read, medicine_read, IsUpdate,
}

module _ (c : CJson) (net : Ntop) where
  open c use {
    Json, parse, print, get_object_item, value_string, create_string, value_string_created,
  }

  -- The stocks after a request for these changes, by the name that it carries.
  abbrev pub IsSettled :
      Bytes → FoodSupply → FoodSupply → MedicineSupply → MedicineSupply → Server → Type 0
  IsSettled name f g m n =
      HasStocks (if bytes_eq name admin_user then g else f)
        (if bytes_eq name admin_user then n else m)

  module _ (home : Bytes) (s : Server) (name : Bytes) (j : Json) (f g : FoodSupply)
      (m n : MedicineSupply) (is_update : IsUpdate c name j f g m n)
      (stocks : HasStocks f m s) where
    core_stocks :
        (k : Core) (t : Server)
        → SameCore k t
        → (k.food ≡ some f) × (k.medicine ≡ some m)
        → HasStocks f m t
    core_stocks k t e h = (ap (λ x. x.food) e ∙ h.0, ap (λ x. x.medicine) e ∙ h.1)

    updated :
        (line : Bytes) (t : Server)
        → IsReady (core s) home t
        → Returns (HasStocks g n) ((update_supplies_from_json c j >> log_event line) t)
    unfolding update_supplies_from_json
    updated line t h =
        let here : HasStocks f m t = core_stocks (core s) t h.0 stocks in
        rw (here.0, here.1, is_update.food, is_update.medicine)
          (Returns-map _ _ (log_event line (record t { food = some g; medicine = some n }))
            (log_event-Returns line home (core (record t { food = some g; medicine = some n })) _
              h.1 refl)
            (λ u e. (ap (λ x. x.food) e, ap (λ x. x.medicine) e)))

    refused :
        (line : Bytes) (t : Server)
        → IsReady (core s) home t
        → Returns (HasStocks f m) (log_event line t)
    refused line t h =
        Returns-map _ _ (log_event line t) (log_event-IsReady line home (core s) t h)
          (λ u e. core_stocks (core s) u e.0 stocks)

    one_of :
        (b : Bool) (x y : M (Unit {0})) (t : Server)
        → Returns (HasStocks g n) (x t)
        → Returns (HasStocks f m) (y t)
        → Returns (HasStocks (if b then g else f) (if b then n else m)) ((if b then x else y) t)
    one_of true x y t h k = h
    one_of false x y t h k = k

    settled :
        (ip : Bytes) (t : Server)
        → IsReady (core s) home t
        → Returns (IsSettled name f g m n) (udp_update c net ip j (some name) t)
    unfolding udp_update
    settled ip t h = one_of (bytes_eq name admin_user) _ _ t (updated _ t h) (refused _ t h)

    requested :
        (sockfd : ℕ) (addr : SockAddr) (ip : Bytes) (t : Server)
        → IsReady (core s) home t
        → Returns (IsSettled name f g m n) (
            udp_request c net sockfd addr ip j
              (some (create_string (text "update")))
              (some (create_string name))
              t)
    unfolding udp_request udp_message bytes_eq
    requested sockfd addr ip t h =
        rw (value_string_created (text "update"), value_string_created name)
          (Returns-bind _ _ (udp_update c net ip j (some name) t) _ (settled ip t h) (λ a u k. k))

    handled :
        (sockfd : ℕ) (d : Datagram) (ip : Bytes)
        → (get_udp_client_info net d.sender).0 ≡ some ip
        → s.host.home ≡ some home
        → Returns (IsSettled name f g m n) (handle_datagram c net sockfd d j s)
    unfolding handle_datagram client_ip_of
    handled sockfd d ip known h =
        rw (known, is_update.message, is_update.hostname)
          (Returns-bind (IsReady (core s) home) _
            (add_udp_client
              (record { sockfd = sockfd; client_addr = d.sender; addr_len = d.sender_len }) s)
            _ (add_udp_client-IsReady _ home (core s) s (refl, h))
            (λ a t r. requested sockfd d.sender ip t r))

    received :
        (sockfd : ℕ) (d : Datagram) (ip : Bytes)
        → (get_udp_client_info net d.sender).0 ≡ some ip
        → s.host.home ≡ some home
        → parse (received_string d.content) ≡ some j
        → Returns (IsSettled name f g m n) (check_udp_clients_messages c net sockfd (some d) s)
    unfolding check_udp_clients_messages receive_udp_json client_ip_of handle_received
    received sockfd d ip known h parsed = rw (known, parsed) (handled sockfd d ip known h)

  -- The datagram that carries this message from this sender.
  abbrev pub datagram_from : SockAddr → ℕ → Bytes → Datagram
  datagram_from sender len message = record { content = message; sender = sender; sender_len = len }

  abbrev pub item_update : Bytes → Item → ℤ → Json
  item_update name (food_item item) v = food_update c name item v
  item_update name (medicine_item item) v = medicine_update c name item v

  sent_whole :
      (ipv6 : Bool) (j : Json)
      → length (print j) < buffer_size
      → send_json c ipv6 j ≡ some (print j)
  sent_whole ipv6 j h =
      let short : leb buffer_size (length (print j)) ≡ false = ground arith in
      send_json_lem c ipv6 j ∙ rw short refl

  -- A request that the server reads as an update of the item.
  item_update-IsUpdate :
      (name : Bytes) (item : Item) (v : ℤ) (f : FoodSupply) (m : MedicineSupply)
      → IsInt v
      → IsUpdate c name (item_update name item v) f (item_food item v f) m (item_medicine item v m)
  item_update-IsUpdate name (food_item item) v f m h = food_read c name item v f m h
  item_update-IsUpdate name (medicine_item item) v f m h = medicine_read c name item v f m h

  update_asked :
      (name : Bytes) (item : Item) (v : ℤ)
      → datagram_turn c name (item_input item v) ≡ asked (item_update name item v)
  update_asked name (food_item item) v = food_asked c name item v
  update_asked name (medicine_item item) v = medicine_asked c name item v

  -- When the user of a UDP client asks to update an item by an amount, an `int`, the client sends a
  -- request whose handling by the server, with HOME set, both segments there and a sender of a known
  -- family, returns; if the client's name is "ubuntu", the amount is added to the stock of that item
  -- and no other stock changes, and if not, no stock changes. The text of the request is taken to be
  -- shorter than the buffer and to read back as the request.
  pub update-delivered :
      (ipv6 : Bool) (name : Bytes) (item : Item) (v : ℤ) (s : Server) (home : Bytes)
      (f : FoodSupply) (m : MedicineSupply) (sockfd len : ℕ) (sender : SockAddr) (ip : Bytes)
      → IsInt v
      → s.host.home ≡ some home
      → s.food ≡ some f
      → s.medicine ≡ some m
      → (get_udp_client_info net sender).0 ≡ some ip
      → length (print (item_update name item v)) < buffer_size
      → parse (received_string (print (item_update name item v))) ≡ some (item_update name item v)
      → (datagram_turn c name (item_input item v) ≡ asked (item_update name item v))
        × (send_json c ipv6 (item_update name item v) ≡ some (print (item_update name item v)))
        × Returns (IsSettled name f (item_food item v f) m (item_medicine item v m)) (
            check_udp_clients_messages c net sockfd
              (some (datagram_from sender len (print (item_update name item v))))
              s)
  update-delivered ipv6 name item v s home f m sockfd len sender ip h hh hf hm known short parsed =
      (
        update_asked name item v,
        sent_whole ipv6 (item_update name item v) short,
        received home s name (item_update name item v) f (item_food item v f) m
            (item_medicine item v m) (item_update-IsUpdate name item v f m h) (hf, hm) sockfd
            (datagram_from sender len (print (item_update name item v))) ip known hh parsed,
      )
