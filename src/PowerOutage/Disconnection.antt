-- ===== src/PowerOutage/Disconnection.antt =====
-- What follows a message to the Unix socket, such as that of the power outage process:
-- handle_unix_socket_activity of src/server/server.c, and handle_server_messages of
-- src/clients/tcp_client.c.
use mathlib.Core.List.{reverse}
use shelter_server.Prelude.{
  ℕ, ◌<◌, ◌≡◌, refl, ap, ◌∙◌, Bytes, text, bytes_eq, Bool, true, false, ◌&&◌, Bool-cases, inl, inr,
  Option, some, List, [], ◌∷◌, ◌++◌, map, length, ◌==◌, arith,
}
use shelter_server.Json.{CJson}
use shelter_server.Clients.Tcp.{clients}
use shelter_server.Server.{
  Server, Effect, connected, opened, sent, sent_to, logged, closed, killed, Returns,
}
use shelter_server.Log.{log_event, log_path, get_home_dir, ensure_log_dir}
use shelter_server.Registry.Broadcast.{send_of, send_to_all_tcp_clients_lem}
use shelter_server.TcpHandler.{buffer_size, received_string, message_json}
use shelter_server.AlertHandler.{handle_power_failure, handle_unix_socket_activity, unix_string}
use shelter_server.Invariant.Results.{Returns-bind}
use shelter_server.TcpClient.Session.{
  Listener, listening, server_closed, told_to_leave, faulted, go_on, receive_json, react_to_json,
  react_to_message, react_to_value, react, handle_server_messages,
}

-- No send is among the effects.
abbrev pub IsSilent : List Effect → Type 0
IsSilent [] = Unit
IsSilent (connected fd ∷ effects) = IsSilent effects
IsSilent (opened fd ∷ effects) = IsSilent effects
IsSilent (sent fd message ∷ effects) = ⊥
IsSilent (sent_to fd addr message ∷ effects) = ⊥
IsSilent (logged path time message ∷ effects) = IsSilent effects
IsSilent (closed fd ∷ effects) = IsSilent effects
IsSilent (killed pid ∷ effects) = IsSilent effects

-- Nothing was sent after these effects.
abbrev pub Extends : List Effect → Server → Type 0
Extends before s = (front : List Effect) × IsSilent front × (s.trace ≡ front ++ before)

home_known :
    (home : Bytes) (s : Server)
    → s.host.home ≡ some home
    → Returns (λ t. (t.trace ≡ s.trace)) (get_home_dir s)
unfolding get_home_dir
home_known home s h = rw h refl

log_dir_known :
    (before : List Effect) (s : Server)
    → s.trace ≡ before
    → Returns (λ t. t.trace ≡ before) (ensure_log_dir s)
unfolding ensure_log_dir
log_dir_known before s e = ground arith

log_event-Extends :
    (message home : Bytes) (s : Server)
    → s.host.home ≡ some home
    → Returns (Extends s.trace) (log_event message s)
unfolding log_event
log_event-Extends message home s h =
    Returns-bind (λ t. t.trace ≡ s.trace) (Extends s.trace) (get_home_dir s) _ (home_known home s h)
      (λ place t e.
        Returns-bind (λ u. u.trace ≡ s.trace) (Extends s.trace) (ensure_log_dir t) _
          (log_dir_known s.trace t e)
          (λ there u k. elim (Bool-cases (there && u.host.can_open_log)) [
            | inl open_log ↦ rw open_log (
                let line : Effect =
                  logged (log_path place) (text "[" ++ u.host.clock ++ text "]") message in
                (line ∷ [], tt, ap (◌∷◌ line) k))
            | inr no_log ↦ rw no_log ([], tt, k)
          ]))

module _ (c : CJson) where
  open c use {
    Json, parse, print, get_object_item, value_string, create_object, create_string, get_created,
    get_added_self, value_string_created,
  }

  abbrev pub disconnect_text : Bytes
  disconnect_text = print (message_json c "disconnect")

  -- The sends to all clients, the latest first, in front of accept and of the effects before it.
  abbrev pub after_sends : ℕ → Server → List Effect
  after_sends fd s =
      reverse (map (send_of disconnect_text) (clients s.tcp_clients)) ++ (opened fd ∷ s.trace)

  closed_after :
      (fd : ℕ) (before : List Effect) (s : Server)
      → Extends before s
      → Extends before (record s { trace = closed fd ∷ s.trace })
  closed_after fd before s h = (closed fd ∷ h.0, h.1, ap (◌∷◌ (closed fd)) h.2)

  pub told :
      (fd x : ℕ) (xs home : Bytes) (s : Server)
      → s.host.home ≡ some home
      → length (x ∷ xs) < buffer_size
      → Returns
          (Extends (after_sends fd s))
          (handle_unix_socket_activity c true (some fd) (some (x ∷ xs)) s)
  unfolding handle_unix_socket_activity handle_power_failure unix_string
  told fd x xs home s h fits =
      let other : (length (x ∷ xs) == buffer_size) ≡ false = ground arith in
      let message : Bytes = received_string (x ∷ xs) in
      rw
        (
          other,
          send_to_all_tcp_clients_lem disconnect_text (record s { trace = opened fd ∷ s.trace }),
        )
        (Returns-bind (Extends (after_sends fd s)) (Extends (after_sends fd s))
          (log_event message (record s { trace = after_sends fd s })) _
          (log_event-Extends message home (record s { trace = after_sends fd s }) h)
          (λ a t k. closed_after fd (after_sends fd s) t k))

  disconnect_message :
      get_object_item (message_json c "disconnect") (text "message")
      ≡ some (create_string (text "disconnect"))
  disconnect_message =
      get_added_self create_object (text "message") _ (get_created (text "message"))

  leaves :
      (authenticated : Bool) (pid_parent : ℕ) (b : ℕ) (bs : Bytes)
      → length (received_string (b ∷ bs)) < buffer_size
      → parse (received_string (b ∷ bs)) ≡ some (message_json c "disconnect")
      → receive_json c authenticated pid_parent (some (b ∷ bs)) ≡ told_to_leave pid_parent
  unfolding receive_json react_to_json react_to_message react_to_value react bytes_eq
  leaves authenticated pid_parent b bs short parsed =
      let other : (length (received_string (b ∷ bs)) == buffer_size) ≡ false = ground arith in
      rw other
        (rw parsed (rw disconnect_message (rw (value_string_created (text "disconnect")) refl)))

  -- Messages are heard one after another.
  heard_append :
      (authenticated : Bool) (pid_parent : ℕ) (before after : List (Option Bytes))
      → handle_server_messages c authenticated pid_parent (before ++ after)
        ≡ go_on c
            (handle_server_messages c authenticated pid_parent before)
            (λ a. handle_server_messages c a pid_parent after)
  unfolding handle_server_messages
  heard_append authenticated pid_parent [] after = refl
  heard_append authenticated pid_parent (m ∷ before) after =
      next (receive_json c authenticated pid_parent m) (λ a. heard_append a pid_parent before after)
    where
      next :
          (l : Listener)
          → ((a : Bool)
              → handle_server_messages c a pid_parent (before ++ after)
                ≡ go_on c
                    (handle_server_messages c a pid_parent before)
                    (λ b. handle_server_messages c b pid_parent after))
          → go_on c l (λ a. handle_server_messages c a pid_parent (before ++ after))
            ≡ go_on c
                (go_on c l (λ a. handle_server_messages c a pid_parent before))
                (λ b. handle_server_messages c b pid_parent after)
      next (listening a) h = h a
      next server_closed h = refl
      next (told_to_leave pid) h = refl
      next faulted h = refl

  -- When a message that is not empty and shorter than the buffer comes over an accepted connection
  -- of the Unix socket, whatever it says, and HOME is set, the server returns from it after it has
  -- sent the text of the message "disconnect" to each TCP client of its list, once and in order. The
  -- child process of a TCP client that still listens after the messages before, and then receives
  -- this text, which is taken to be shorter than the buffer and to read back as that message, sends
  -- SIGINT to its parent and leaves, whatever would come after it.
  pub unix_message-disconnects :
      (fd x : ℕ) (xs home : Bytes) (s : Server) (authenticated still : Bool) (pid_parent b : ℕ)
      (bs : Bytes) (before after : List (Option Bytes))
      → s.host.home ≡ some home
      → length (x ∷ xs) < buffer_size
      → disconnect_text ≡ b ∷ bs
      → length (received_string (b ∷ bs)) < buffer_size
      → parse (received_string (b ∷ bs)) ≡ some (message_json c "disconnect")
      → handle_server_messages c authenticated pid_parent before ≡ listening still
      → Returns
          (Extends (after_sends fd s))
          (handle_unix_socket_activity c true (some fd) (some (x ∷ xs)) s)
        × (handle_server_messages c authenticated pid_parent
              (before ++ some disconnect_text ∷ after)
            ≡ told_to_leave pid_parent)
  unix_message-disconnects fd x xs home s authenticated still pid_parent b bs before after h fits e
        short parsed hears =
      (
        told fd x xs home s h fits,
        heard_append authenticated pid_parent before (some disconnect_text ∷ after)
            ∙ ap
                (λ l.
                  go_on c l
                    (λ a. handle_server_messages c a pid_parent (some disconnect_text ∷ after)))
                hears
            ∙ unfold handle_server_messages in
              ap (λ l. go_on c l (λ a. handle_server_messages c a pid_parent after))
                (ap (λ t. receive_json c still pid_parent (some t)) e
                  ∙ leaves still pid_parent b bs short parsed),
      )
