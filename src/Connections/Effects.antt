-- ===== src/Connections/Effects.antt =====
-- The actions that leave the connections alone, and the sends to clients that are open.
use shelter_server.Prelude.{ℕ, ◌≡◌, Bytes, true, List, [], ◌∷◌, arith}
use shelter_server.Json.{CJson}
use shelter_server.Clients.Tcp.{clients}
use shelter_server.Server.{
  Server, sent, emit, M, Outcome, done, exited, fault, bind_outcome, Ensures,
}
use shelter_server.Registry.{send_each, send_to_all_tcp_clients}
use shelter_server.Summary.{update_supplies_from_json}
use shelter_server.AlertHandler.{stop_running, sigint_handler}
use shelter_server.TcpHandler.{has}
use shelter_server.Invariant.{Keeps, Keeps-pure, Keeps-bind}
use shelter_server.Invariant.Closed.{Quiet}
use shelter_server.Invariant.Frame.{Frame, Frame-Quiet}
use shelter_server.Invariant.Alerts.{update_supplies_from_json-Keeps, sigint_handler-Keeps}
use shelter_server.Connections.{View, view, Seen, Ends, Goes}
use shelter_server.Connections.Sets.{Within}

pub Ends-bind :
    {A B : Type 0} (P : A → Server → Type 0) (Q : B → Server → Type 0) (R : Server → Type 0)
    (o : Outcome A) (f : A → M B)
    → Ends P R o
    → ((a : A) (t : Server) → P a t → Ends Q R (f a t))
    → Ends Q R (bind_outcome o f)
Ends-bind P Q R (done a s) f h k = k a s h
Ends-bind P Q R (exited s) f h k = h
Ends-bind P Q R fault f h k = tt

module _ (sockets : List ℕ) where
  module _ (Q : View → Type 0) where
    seen_frame : Frame (Seen sockets Q)
    seen_frame = record {
      on_host = λ s x h. h;
      on_logged = λ s x y z h. h;
      on_sent_to = λ s x y z h. h;
      on_emergency = λ s x h. h;
      on_counts = λ s x h. h;
      on_udp = λ s x h. h;
    }

    pub seen_quiet : Quiet (Seen sockets Q)
    seen_quiet = Frame-Quiet seen_frame

    pub supplies-Seen :
        (c : CJson) (json : c.Json) → Keeps (Seen sockets Q) (update_supplies_from_json c json)
    supplies-Seen c json = update_supplies_from_json-Keeps (λ s f m h. h) c json

    pub sigint_handler-Seen : Keeps (Seen sockets Q) sigint_handler
    sigint_handler-Seen =
        sigint_handler-Keeps (λ pid. record { at = λ s h. h })
          (unfold stop_running in record { at = λ s h. h })

    -- A send on a descriptor that is open.
    pub sent-Seen :
        (fd : ℕ) (message : Bytes)
        → ((v : View) → Q v → has fd v.open_now ≡ true)
        → Keeps (Seen sockets Q) (emit (sent fd message))
    sent-Seen fd message opens = record {
      at = λ s h fresh. let (q, safe) = h fresh in (q, (opens (view s) q, safe));
    }

    -- What holds where an action that keeps it ends normally, and by `exit`.
    pub ends :
        {A : Type 0} (Q' : View → Type 0) (o : Outcome A)
        → ((v : View) → Q v → Q' v)
        → Ensures (Seen sockets Q) o
        → Goes sockets Q' o
    ends Q' (done a s) weaken h = λ fresh. (weaken (view s) (h fresh).0, (h fresh).1)
    ends Q' (exited s) weaken h = λ fresh. (h fresh).1
    ends Q' fault weaken h = tt

  Ensures-weaker :
      {A : Type 0} (Q Q' : View → Type 0) (o : Outcome A)
      → ((v : View) → Q v → Q' v)
      → Ensures (Seen sockets Q) o
      → Ensures (Seen sockets Q') o
  Ensures-weaker Q Q' (done a s) weaken h = λ fresh. (weaken (view s) (h fresh).0, (h fresh).1)
  Ensures-weaker Q Q' (exited s) weaken h = λ fresh. (weaken (view s) (h fresh).0, (h fresh).1)
  Ensures-weaker Q Q' fault weaken h = tt

  -- Sends on descriptors that are all open.
  send_each-Seen :
      (Q : View → Type 0) (fds : List ℕ) (message : Bytes)
      → ((v : View) → Q v → Within fds v.open_now)
      → Keeps (Seen sockets Q) (send_each fds message)
  unfolding send_each
  send_each-Seen Q [] message opens = Keeps-pure tt
  send_each-Seen Q (fd ∷ fds) message opens =
      Keeps-bind _ _ (sent-Seen Q fd message (λ v q. opens v q fd (ground arith)))
        (λ _. send_each-Seen Q fds message (λ v q n h. opens v q n (ground arith)))

  pub send_to_all_tcp_clients-Seen :
      (Q : View → Type 0) (message : Bytes)
      → ((v : View) → Q v → Within (clients v.tcp_clients) v.open_now)
      → Keeps (Seen sockets Q) (send_to_all_tcp_clients message)
  unfolding send_to_all_tcp_clients
  send_to_all_tcp_clients-Seen Q message opens = record {
    at = λ s h.
        let fds : List ℕ = clients s.tcp_clients in
        let Q' : View → Type 0 = λ v. Q v × Within fds v.open_now in
        Ensures-weaker Q' Q _ (λ v q. q.0)
          ((send_each-Seen Q' fds message (λ v q. q.1)).at s
            (λ fresh. ((((h fresh).0), opens (view s) (h fresh).0), (h fresh).1)));
  }
