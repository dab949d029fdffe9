-- ===== src/Invariant/Core.antt =====
-- The part of the state and the trace that an update of the supplies, a new connection and SIGINT write.
use shelter_server.Prelude.{
  ℕ, ◌≡◌, sym, subst, Bool, Option, none, some, List, [], ◌∷◌, Bool-cases, inl, inr,
}
use shelter_server.Clients.Tcp
use shelter_server.Supplies.{FoodSupply, MedicineSupply}
use shelter_server.Server.{
  Server, Effect, connected, opened, sent, sent_to, logged, closed, killed, Outcome, done, exited,
  fault, Ensures,
}
use shelter_server.Registry.{add_tcp_client, remove_tcp_client, remove_tcp_found}
use shelter_server.TcpHandler.{unwatch}
use shelter_server.Invariant.{Keeps, Keeps-pure}
use shelter_server.Invariant.Closed.{Closed}
use shelter_server.Invariant.Frame.{Frame, Frame-Quiet, log_event-Keeps}

pub record Core : Type 0 where
  pub running : Bool
  pub food : Option FoodSupply
  pub medicine : Option MedicineSupply
  pub max_fd : ℕ
  pub alerts_pid : ℕ
  pub power_outage_pid : ℕ
  pub interrupted : List ℕ

-- The processes that SIGINT was sent to.
abbrev pub targets : List Effect → List ℕ
targets [] = []
targets (connected fd ∷ effects) = targets effects
targets (opened fd ∷ effects) = targets effects
targets (sent fd message ∷ effects) = targets effects
targets (sent_to fd addr message ∷ effects) = targets effects
targets (logged path time message ∷ effects) = targets effects
targets (closed fd ∷ effects) = targets effects
targets (killed pid ∷ effects) = pid ∷ targets effects

abbrev pub core : Server → Core
core s = record {
  running = s.running;
  food = s.food;
  medicine = s.medicine;
  max_fd = s.max_fd;
  alerts_pid = s.alerts_pid;
  power_outage_pid = s.power_outage_pid;
  interrupted = targets s.trace;
}

abbrev pub SameCore : Core → Server → Type 0
SameCore k s = core s ≡ k

module _ (Q : Core → Type 0) where
  pub transfer :
      {A : Type 0} (k : Core) (o : Outcome A)
      → Q k
      → Ensures (SameCore k) o
      → Ensures (λ s. Q (core s)) o
  transfer k (done a s) q e = subst Q (sym e) q
  transfer k (exited s) q e = subst Q (sym e) q
  transfer k fault q e = tt

  abbrev OnCore : Server → Type 0
  OnCore s = Q (core s)

  core_frame : Frame OnCore
  core_frame = record {
    on_host = λ s x h. h;
    on_logged = λ s x y z h. h;
    on_sent_to = λ s x y z h. h;
    on_emergency = λ s x h. h;
    on_counts = λ s x h. h;
    on_udp = λ s x h. h;
  }

  add_tcp_client-Core : (fd : ℕ) → Keeps OnCore (add_tcp_client fd)
  unfolding add_tcp_client
  add_tcp_client-Core fd = record {
    at = λ s h. elim (Bool-cases (Tcp.has_room s.tcp_clients)) [
      | inl room ↦ rw room ((log_event-Keeps core_frame _).at _ h)
      | inr full ↦ rw full h
    ];
  }

  remove_tcp_found-Core : (o : Option ℕ) → Keeps OnCore (remove_tcp_found o)
  unfolding remove_tcp_found
  remove_tcp_found-Core none = Keeps-pure tt
  remove_tcp_found-Core (some i) = record { at = λ s h. (log_event-Keeps core_frame _).at _ h }

  remove_tcp_client-Core : (fd : ℕ) → Keeps OnCore (remove_tcp_client fd)
  unfolding remove_tcp_client
  remove_tcp_client-Core fd = record { at = λ s h. (remove_tcp_found-Core _).at s h }

  -- A predicate of that part alone is kept by every action that leaves it alone.
  pub Core-Closed : Closed OnCore
  unfolding unwatch
  Core-Closed = record {
    quiet = Frame-Quiet core_frame;
    connected_rule = λ fd. record { at = λ s h. h };
    opened_rule = λ fd. record { at = λ s h. h };
    sent_rule = λ fd m. record { at = λ s h. h };
    closed_rule = λ fd. record { at = λ s h. h };
    add_tcp_rule = add_tcp_client-Core;
    remove_tcp_rule = remove_tcp_client-Core;
    unwatch_rule = λ fd. record { at = λ s h. h };
  }
