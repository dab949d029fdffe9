-- ===== src/Invariant/Frame.antt =====
-- Predicates that do not look at the host, the log, the UDP clients, the alert counters and the last
-- event: the actions of src/server/server.c that touch nothing else keep them.
use shelter_server.Prelude.{
  ℕ, Bytes, Bool, true, false, Option, none, some, Bool-cases, inl, inr, if◌then◌else◌, ◌&&◌, ◌∷◌,
  ◌++◌, text,
}
use shelter_server.Clients.Udp
use shelter_server.Clients.Udp.{UdpClientData, UdpClientList, SockAddr}
use shelter_server.Emergency.{EntryAlertsCount, EmergencyInfo}
use shelter_server.Server.{
  Server, Host, M, Ensures, logged, sent_to, pure, exit_failure, emit, put_state, ◌>>◌,
}
use shelter_server.Log.{get_home_dir, ensure_log_dir, log_path, log_event}
use shelter_server.Registry.{add_udp_unless, add_udp_client}
use shelter_server.Summary.{set_emergency}
use shelter_server.AlertHandler.{count_detected}
use shelter_server.Invariant.{Keeps, Keeps-pure, Keeps-exit, Keeps-bind}
use shelter_server.Invariant.Closed.{Quiet}

pub record Frame (P : Server → Type 0) : Type 0 where
  pub on_host : (s : Server) (host : Host) → P s → P (record s { host = host })
  pub on_logged :
      (s : Server) (path time message : Bytes)
      → P s
      → P (record s { trace = logged path time message ∷ s.trace })
  pub on_sent_to :
      (s : Server) (fd : ℕ) (addr : SockAddr) (message : Bytes)
      → P s
      → P (record s { trace = sent_to fd addr message ∷ s.trace })
  pub on_emergency : (s : Server) (e : EmergencyInfo) → P s → P (record s { emergency_info = e })
  pub on_counts :
      (s : Server) (e : EntryAlertsCount) → P s → P (record s { entry_alerts_count = e })
  pub on_udp : (s : Server) (l : UdpClientList) → P s → P (record s { udp_clients = l })

module _ {P : Server → Type 0} (frame : Frame P) where
  open frame use {on_host, on_logged, on_sent_to, on_emergency, on_counts, on_udp}

  known_home-Keeps :
      (o : Option Bytes)
      → Keeps {A = Bytes} P (elim o [ none ↦ exit_failure | some home ↦ pure home ])
  known_home-Keeps none = Keeps-exit
  known_home-Keeps (some home) = Keeps-pure home

  home-Keeps : Keeps P get_home_dir
  unfolding get_home_dir
  home-Keeps = record { at = λ s h. (known_home-Keeps s.host.home).at s h }

  if_at :
      {A : Type 0} (b : Bool) (m n : M A) (s : Server)
      → Ensures P (m s)
      → Ensures P (n s)
      → Ensures P ((if b then m else n) s)
  if_at true m n s h k = h
  if_at false m n s h k = k

  log_dir-Keeps : Keeps P ensure_log_dir
  unfolding ensure_log_dir
  log_dir-Keeps = record {
    at = λ s h.
        let made : Host = record s.host { log_dir_exists = true } in
        let create : M Bool = put_state (record s { host = made }) >> pure true in
        if_at s.host.log_dir_exists (pure true) (if s.host.can_mkdir then create else pure false) s
          h (if_at s.host.can_mkdir create (pure false) s (on_host s made h) h);
  }

  pub log_event-Keeps : (message : Bytes) → Keeps P (log_event message)
  unfolding log_event
  log_event-Keeps message = Keeps-bind _ _ home-Keeps λ home. Keeps-bind _ _ log_dir-Keeps λ there.
      record {
        at = λ s h.
            if_at (there && s.host.can_open_log)
              (emit (logged (log_path home) (text "[" ++ s.host.clock ++ text "]") message))
              (pure tt) s (on_logged s _ _ _ h) h;
      }

  add_udp_unless-Keeps : (o : Option ℕ) (client : UdpClientData) → Keeps P (add_udp_unless o client)
  unfolding add_udp_unless
  add_udp_unless-Keeps (some i) client = Keeps-pure tt
  add_udp_unless-Keeps none client = record {
    at = λ s h. elim (Bool-cases (Udp.has_room s.udp_clients)) [
      | inl room ↦ rw room ((log_event-Keeps _).at _ (on_udp s _ h))
      | inr full ↦ rw full h
    ];
  }

  add_udp_client-Keeps : (client : UdpClientData) → Keeps P (add_udp_client client)
  unfolding add_udp_client
  add_udp_client-Keeps client = record { at = λ s h. (add_udp_unless-Keeps _ client).at s h }

  set_emergency-Keeps : (event : Bytes) → Keeps P (set_emergency event)
  unfolding set_emergency
  set_emergency-Keeps event = record { at = λ s h. on_emergency s _ h }

  count_detected-Keeps : (entry : Option Bytes) → Keeps P (count_detected entry)
  unfolding count_detected
  count_detected-Keeps none = Keeps-pure tt
  count_detected-Keeps (some entry) = record { at = λ s h. on_counts s _ h }

  pub Frame-Quiet : Quiet P
  Frame-Quiet = record {
    sent_to_rule = λ fd addr m. record { at = λ s h. on_sent_to s fd addr m h };
    log_rule = log_event-Keeps;
    add_udp_rule = add_udp_client-Keeps;
    emergency_rule = set_emergency-Keeps;
    count_rule = count_detected-Keeps;
  }
