-- ===== src/AlertHandler/Delivery.antt =====
-- What an alert from the FIFO does: check_alerts of src/server/server.c.
use mathlib.Core.List.{reverse}
use shelter_server.Prelude.{
  ℕ, zero, suc, ◌<◌, ◌≡◌, refl, ap, ◌∙◌, Bytes, IsText, text, true, Option, none, some, [], ◌∷◌,
  ◌++◌, map, replicate, length, arith,
}
use shelter_server.Emergency.{
  EntryAlertsCount, c_string, count_entry, detect_entry, update_emergency_info,
}
use shelter_server.Clients.Tcp.{clients}
use shelter_server.Clients.Udp.{known_clients}
use shelter_server.Server.{Server, Effect, Outcome, done, logged, bind_outcome}
use shelter_server.Log.{log_event, log_path}
use shelter_server.Registry.{send_to_all_tcp_clients, send_to_all_udp_clients}
use shelter_server.Registry.Broadcast.{
  send_of, send_to_of, send_to_all_tcp_clients_lem, send_to_all_udp_clients_lem,
}
use shelter_server.Summary.{set_emergency}
use shelter_server.TcpHandler.{buffer_size}
use shelter_server.AlertHandler.{alert_string, count_detected, process_alert, check_alerts}

-- The log can be written: HOME is set, its directory is there, and fopen succeeds.
pub record CanLog (home : Bytes) (s : Server) : Type 0 where
  pub home_set : s.host.home ≡ some home
  pub directory : s.host.log_dir_exists ≡ true
  pub opens : s.host.can_open_log ≡ true

-- The line of the log.
abbrev pub line_of : Bytes → Server → Bytes → Effect
line_of home s message = logged (log_path home) (text "[" ++ s.host.clock ++ text "]") message

log_event_lem :
    (message home : Bytes) (s : Server)
    → CanLog home s
    → log_event message s ≡ done tt (record s { trace = line_of home s message ∷ s.trace })
unfolding log_event
log_event_lem message home s h = rw (h.home_set, h.directory, h.opens) refl

-- The counters after an alert with this entry, or with none.
abbrev pub counted : Option Bytes → EntryAlertsCount → EntryAlertsCount
counted none counts = counts
counted (some entry) counts = count_entry entry counts

count_detected_lem :
    (entry : Option Bytes) (s : Server)
    → count_detected entry s
      ≡ done tt (record s { entry_alerts_count = counted entry s.entry_alerts_count })
unfolding count_detected
count_detected_lem none s = refl
count_detected_lem (some entry) s = refl

c_string-padded : (s : Bytes) (m : ℕ) → IsText s → 0 < m → c_string (s ++ replicate m 0) ≡ some s
unfolding c_string
c_string-padded [] zero t h = absurd (omega arith)
c_string-padded [] (suc m) t h = refl
c_string-padded (b ∷ bs) m t h = rw (t.0, c_string-padded bs m t.1 h) refl

-- The state after an alert: its text and the time are the last event, its entry is counted, and
-- the effects are a line of the log, the sends to the TCP clients, those to the UDP clients, and
-- another line.
unfoldable pub alerted : Bytes → Bytes → Server → Server
unfolding set_emergency
alerted home message s = record s {
  emergency_info = update_emergency_info s.host.clock message;
  entry_alerts_count = counted (detect_entry message) s.entry_alerts_count;
  trace =
      line_of home s (text "Sent alert notification to all connected clients")
      ∷ (reverse (map (send_to_of message) (known_clients s.udp_clients))
          ++ (reverse (map (send_of message) (clients s.tcp_clients))
              ++ line_of home s message ∷ s.trace));
}

-- An action that returns goes on with what follows it.
bind_done :
    {A B : Type 0} (o : Outcome A) (a : A) (t : Server) (f : A → Server → Outcome B)
    → o ≡ done a t
    → bind_outcome o f ≡ f a t
bind_done o a t f e = ap (λ x. bind_outcome x f) e

process_alert_lem :
    (message home : Bytes) (s : Server)
    → CanLog home s
    → process_alert message s ≡ done tt (alerted home message s)
unfolding process_alert alerted
process_alert_lem message home s h =
    bind_done (log_event message s) _ _ _ (log_event_lem message home s h)
    ∙ bind_done (send_to_all_tcp_clients message _) _ _ _ (send_to_all_tcp_clients_lem message _)
    ∙ bind_done (send_to_all_udp_clients message _) _ _ _ (send_to_all_udp_clients_lem message _)
    ∙ bind_done (log_event _ _) _ _ _ (
        log_event_lem _ home _
          (record { home_set = h.home_set; directory = h.directory; opens = h.opens }))
    ∙ count_detected_lem (detect_entry message) _

-- An alert without a zero byte, shorter than the buffer of 1024 bytes, is handled as a whole when
-- the log can be written: it is sent once to each TCP client and to each known UDP client, logged
-- before that, and after it the server logs that it was sent. It becomes the last event, and the
-- counter of the entry that it names, if any, is raised. Nothing else changes.
pub check_alerts_lem :
    (b : ℕ) (bs home : Bytes) (s : Server)
    → CanLog home s
    → IsText (b ∷ bs)
    → length (b ∷ bs) < buffer_size
    → check_alerts (some (some (b ∷ bs))) s ≡ done tt (alerted home (b ∷ bs) s)
unfolding check_alerts
check_alerts_lem b bs home s h t short =
    let read : alert_string (b ∷ bs) ≡ some (b ∷ bs) =
      unfold alert_string in c_string-padded (b ∷ bs) _ t (omega arith) in
    rw read (process_alert_lem (b ∷ bs) home s h)
