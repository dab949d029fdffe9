-- ===== src/TcpClient/Login.antt =====
-- authenticate of src/clients/tcp_client.c, and the server's answer to what it sends.
use shelter_server.Prelude.{
  ℕ, ◌<◌, ◌≡◌, refl, ◌∙◌, Bytes, text, bytes_eq, same_name, Bool, true, false, Option, some, ◌∷◌,
  List, length, ◌==◌, if◌then◌else◌, arith,
}
use shelter_server.Json.{CJson}
use shelter_server.Client.{Run, ok, ◌>>=◌}
use shelter_server.Client.HostName.{hostname}
use shelter_server.Server.{
  Effect, Returns, bind_outcome, Server, Outcome, done, exited, fault, M, sent,
}
use shelter_server.Net.{Ntop, get_tcp_client_ip}
use shelter_server.Log.{log_event}
use shelter_server.Summary.{send_json_to_tcp_client}
use shelter_server.Invariant.Core.{core}
use shelter_server.Invariant.Results.{log_event-Returns}
use shelter_server.TcpHandler.{
  buffer_size, admin_user, received_string, receive_tcp_json, message_json, authenticate_client,
  handle_message, handle_request, handle_received, check_tcp_clients_messages,
}

module _ (c : CJson) where
  open c use {
    Json, parse, print, get_object_item, value_string, create_object, create_string, add_item,
    get_created, get_added_self, get_added_other, value_string_created,
  }

  unfoldable pub login_json : Bytes → Json
  login_json id =
      add_item (add_item create_object (text "message") (create_string (text "authenticateme")))
        (text "hostname") (create_string id)

  -- The argument is what /etc/os-release holds, the result what is sent; `hostname` faults where the
  -- file opens.
  unfoldable pub authenticate : Option Bytes → Run Json
  unfolding hostname login_json
  authenticate file = hostname file >>= λ utf8_os_id. ok (login_json utf8_os_id)

  pub login_message :
      (id : Bytes)
      → get_object_item (login_json id) (text "message")
        ≡ some (create_string (text "authenticateme"))
  unfolding login_json same_name
  login_message id =
      get_added_other _ (text "hostname") (text "message") _ refl
      ∙ get_added_self create_object (text "message") _ (get_created (text "message"))

  login_hostname :
      (id : Bytes) → get_object_item (login_json id) (text "hostname") ≡ some (create_string id)
  unfolding login_json same_name
  login_hostname id = get_added_self _ (text "hostname") _ (
      get_added_other create_object (text "message") (text "hostname") _ refl
      ∙ get_created (text "hostname"))

  -- The action returns `r` and has sent the message to the client last.
  abbrev pub Answers : ℕ → Bool → Bytes → Outcome Bool → Type 0
  Answers fd r answer (done a t) =
      (a ≡ r) × (rest : List Effect) × (t.trace ≡ sent fd answer ∷ rest)
  Answers fd r answer (exited t) = ⊥
  Answers fd r answer fault = ⊥

  Answers-bind :
      {A : Type 0} (P : Server → Type 0) (fd : ℕ) (r : Bool) (answer : Bytes) (o : Outcome A)
      (f : A → M Bool)
      → Returns P o
      → ((a : A) (t : Server) → Answers fd r answer (f a t))
      → Answers fd r answer (bind_outcome o f)
  Answers-bind P fd r answer (done a t) f h k = k a t
  Answers-bind P fd r answer (exited t) f h k = absurd h
  Answers-bind P fd r answer fault f h k = absurd h

  abbrev pub verdict : Bool → Json
  verdict admitted =
      if admitted then message_json c "auth_success" else message_json c "auth_failure"

  module _ (net : Ntop) (fd : ℕ) (home : Bytes) (s : Server) (h : s.host.home ≡ some home) where
    logged_answer :
        (line : Bytes) (r : Bool) (m : Json)
        → Answers fd r (print m) (
            bind_outcome
              (log_event line s)
              (λ _ t. done r (record t { trace = sent fd (print m) ∷ t.trace })))
    logged_answer line r m =
        Answers-bind _ fd r (print m) (log_event line s) _
          (log_event-Returns line home (core s) s h refl) (λ a t. (refl, t.trace, refl))

    admitted_or_not :
        (b : Bool) (m n : M Bool)
        → Answers fd true (print (verdict true)) (m s)
        → Answers fd false (print (verdict false)) (n s)
        → Answers fd b (print (verdict b)) ((if b then m else n) s)
    admitted_or_not true m n hy hn = hy
    admitted_or_not false m n hy hn = hn

    answered :
        (hostname : Bytes)
        → Answers fd
            (bytes_eq hostname admin_user)
            (print (verdict (bytes_eq hostname admin_user)))
            (authenticate_client c net fd (some (create_string hostname)) s)
    unfolding authenticate_client send_json_to_tcp_client get_tcp_client_ip
    answered hostname = rw (value_string_created hostname) (
        admitted_or_not (bytes_eq hostname admin_user) _ _ (logged_answer _ true (verdict true))
          (logged_answer _ false (verdict false)))

    logged_in :
        (id text_of : Bytes)
        → parse (received_string text_of) ≡ some (login_json id)
        → Answers fd
            (bytes_eq id admin_user)
            (print (verdict (bytes_eq id admin_user)))
            (handle_received c net fd (parse (received_string text_of)) s)
    unfolding handle_received handle_request handle_message
    logged_in id text_of parsed =
        rw
          (
            parsed,
            login_message id,
            value_string_created (text "authenticateme"),
            login_hostname id,
          )
          (answered id)

  -- The login that authenticate builds from a name is answered, whatever the name is: with HOME set
  -- at the server, and where the text of the login is shorter than the buffer and reads back as the
  -- login, the handling of what the server receives returns, its result and the message that it sends
  -- last, "auth_success" or "auth_failure", saying whether the name is "ubuntu".
  pub login_json-answered :
      (net : Ntop) (fd : ℕ) (id : Bytes) (b : ℕ) (bs home : Bytes) (s : Server)
      → s.host.home ≡ some home
      → print (login_json id) ≡ b ∷ bs
      → length (b ∷ bs) < buffer_size
      → parse (received_string (b ∷ bs)) ≡ some (login_json id)
      → Answers fd
          (bytes_eq id admin_user)
          (print (verdict (bytes_eq id admin_user)))
          (check_tcp_clients_messages c net fd (some (print (login_json id))) s)
  unfolding check_tcp_clients_messages receive_tcp_json
  login_json-answered net fd id b bs home s hh p short parsed =
      let other : (length (b ∷ bs) == buffer_size) ≡ false = ground arith in
      rw p (rw other (logged_in net fd home s hh id (b ∷ bs) parsed))
