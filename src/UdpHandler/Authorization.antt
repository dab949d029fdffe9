-- ===== src/UdpHandler/Authorization.antt =====
-- check_udp_clients_messages of src/server/server.c and the stocks.
use shelter_server.Prelude.{
  ℕ, ◌≡◌, refl, sym, ap, ◌∙◌, Bytes, text, bytes_eq, Bool, true, false, ◌&&◌, Option, none, some,
  if◌then◌else◌, Bool-cases, inl, inr,
}
use shelter_server.Json.{CJson}
use shelter_server.Clients.Udp.{SockAddr}
use shelter_server.Server.{Server, M, pure, deref, Ensures, ◌>>=◌}
use shelter_server.Net.{Ntop}
use shelter_server.TcpHandler.{received_string, admin_user}
use shelter_server.UdpHandler.{
  Datagram, receive_udp_json, udp_update, udp_message, udp_request, handle_datagram,
  handle_received, check_udp_clients_messages,
}
use shelter_server.Invariant.{
  Keeps, Keeps-if, Keeps-pure, Keeps-bind, Keeps-bind-Gives, Gives-bind, Gives-pure,
}
use shelter_server.Invariant.Closed.{Quiet}
use shelter_server.Invariant.Core.{core, Core, SameCore, transfer, Core-Closed}
use shelter_server.Invariant.Events.{client_ip_of-Keeps, udp_status-Keeps, udp_summary-Keeps}

same_quiet : (k : Core) → Quiet (SameCore k)
same_quiet k = (Core-Closed (λ k'. k' ≡ k)).quiet

module _ (c : CJson) where
  open c use {Json, parse, get_object_item, value_string}

  -- The item of this name is a string, and the string is this one.
  abbrev pub text_is : Option Json → Bytes → Bool
  text_is none expected = false
  text_is (some item) expected = elim (value_string item) [
    | none ↦ false
    | some s ↦ bytes_eq s expected
  ]

  -- A request for an update that says it comes from the admin user.
  abbrev pub is_admin_update : Json → Bool
  is_admin_update json =
      text_is (get_object_item json (text "message")) (text "update")
      && text_is (get_object_item json (text "hostname")) admin_user

  module _ (net : Ntop) (k : Core) where
    open (same_quiet k) use {log_rule, add_udp_rule}

    else_branch :
        {A : Type 0} {P : Server → Type 0} (b : Bool) (m n : M A)
        → b ≡ false
        → Keeps P n
        → Keeps P (if b then m else n)
    else_branch b m n h kn = rw h kn

    not_update :
        (ip : Bytes) (json : Json) (auth : Option Bytes)
        → elim auth [ none ↦ false | some s ↦ bytes_eq s admin_user ] ≡ false
        → Keeps (SameCore k) (udp_update c net ip json auth)
    unfolding udp_update
    not_update ip json none h = record { at = λ s e. tt }
    not_update ip json (some user) h = record {
      at = λ s e. (else_branch (bytes_eq user admin_user) _ _ h (log_rule _)).at s e;
    }

    second_false : (a b : Bool) → a ≡ true → (a && b) ≡ false → b ≡ false
    second_false a b e h = sym (ap (λ x. x && b) e) ∙ h

    message-Keeps :
        (sockfd : ℕ) (addr : SockAddr) (ip : Bytes) (json : Json) (value : Bytes)
        (auth : Option Bytes)
        → (bytes_eq value (text "update")
            && elim auth [ none ↦ false | some s ↦ bytes_eq s admin_user ])
          ≡ false
        → Keeps (SameCore k) (udp_message c net sockfd addr ip json value auth)
    unfolding udp_message
    message-Keeps sockfd addr ip json value auth h =
        elim (Bool-cases (bytes_eq value (text "update"))) [
          | inl e ↦ rw e (not_update ip json auth (second_false _ _ e h))
          | inr e ↦ else_branch (bytes_eq value (text "update")) _ _ e (
              Keeps-if (bytes_eq value (text "status")) _ _
                (udp_status-Keeps c net (same_quiet k) sockfd addr ip)
                (Keeps-if (bytes_eq value (text "summary")) _ _
                  (udp_summary-Keeps c net (same_quiet k) sockfd addr ip) (Keeps-pure tt)))
        ]

    deref_message-Keeps :
        (sockfd : ℕ) (addr : SockAddr) (ip : Bytes) (json : Json) (value auth : Option Bytes)
        → (elim value [ none ↦ false | some s ↦ bytes_eq s (text "update") ]
            && elim auth [ none ↦ false | some s ↦ bytes_eq s admin_user ])
          ≡ false
        → Keeps
            (SameCore k)
            (deref value >>= λ v. udp_message c net sockfd addr ip json v auth >>= λ _. pure true)
    deref_message-Keeps sockfd addr ip json none auth h = record { at = λ s e. tt }
    deref_message-Keeps sockfd addr ip json (some v) auth h = record {
      at = λ s e.
          (Keeps-bind _ _ (message-Keeps sockfd addr ip json v auth h) (λ _. Keeps-pure true)).at s
            e;
    }

    request-Keeps :
        (sockfd : ℕ) (addr : SockAddr) (ip : Bytes) (json : Json) (message hostname : Option Json)
        → (text_is message (text "update") && text_is hostname admin_user) ≡ false
        → Keeps (SameCore k) (udp_request c net sockfd addr ip json message hostname)
    unfolding udp_request
    request-Keeps sockfd addr ip json none hostname h = Keeps-pure false
    request-Keeps sockfd addr ip json (some m) none h = Keeps-pure false
    request-Keeps sockfd addr ip json (some m) (some u) h =
        deref_message-Keeps sockfd addr ip json (value_string m) (value_string u) h

    datagram-Keeps :
        (sockfd : ℕ) (d : Datagram) (json : Json)
        → is_admin_update json ≡ false
        → Keeps (SameCore k) (handle_datagram c net sockfd d json)
    unfolding handle_datagram
    datagram-Keeps sockfd d json h =
        Keeps-bind _ _ (client_ip_of-Keeps c net (same_quiet k) d.sender)
          (λ ip. Keeps-bind _ _ (add_udp_rule _) (λ _. request-Keeps sockfd d.sender ip json _ _ h))

    received-Keeps :
        (sockfd : ℕ) (d : Datagram) (parsed : Option Json)
        → ((json : Json) → parsed ≡ some json → is_admin_update json ≡ false)
        → Keeps (SameCore k) (handle_received c net sockfd d parsed)
    unfolding handle_received
    received-Keeps sockfd d none h = Keeps-pure false
    received-Keeps sockfd d (some json) h = datagram-Keeps sockfd d json (h json refl)

    check-Keeps :
        (sockfd : ℕ) (d : Datagram)
        → ((json : Json)
            → parse (received_string d.content) ≡ some json
            → is_admin_update json ≡ false)
        → Keeps (SameCore k) (check_udp_clients_messages c net sockfd (some d))
    unfolding check_udp_clients_messages receive_udp_json
    check-Keeps sockfd d h =
        Keeps-bind-Gives {Q = λ o. o ≡ parse (received_string d.content)} _ _
          (Gives-bind _ _ (client_ip_of-Keeps c net (same_quiet k) d.sender)
            (λ _. Gives-pure _ refl))
          (λ o q. received-Keeps sockfd d o (λ json e. h json (sym q ∙ e)))

  -- A datagram that is not JSON, or is JSON but not a request for an update with the hostname
  -- "ubuntu", leaves both stocks as they were when its handling ends, normally or by `exit`.
  pub only_admin_updates :
      (net : Ntop) (sockfd : ℕ) (d : Datagram) (s : Server)
      → ((json : Json)
          → parse (received_string d.content) ≡ some json
          → is_admin_update json ≡ false)
      → Ensures
          (λ t. (t.food ≡ s.food) × (t.medicine ≡ s.medicine))
          (check_udp_clients_messages c net sockfd (some d) s)
  only_admin_updates net sockfd d s h =
      transfer (λ k. (k.food ≡ s.food) × (k.medicine ≡ s.medicine)) (core s) _ (refl, refl)
        ((check-Keeps net (core s) sockfd d h).at s refl)
