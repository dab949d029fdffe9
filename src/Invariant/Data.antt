-- ===== src/Invariant/Data.antt =====
-- The bounds of the server's data (the global variables of src/server/server.c and the supplies), and
-- the actions that write them.
use shelter_server.Prelude.{
  ℕ, ◌≡◌, refl, Bytes, Bool, true, false, Option, none, some, arith, length, length-strncpy,
  Bool-cases, Option-cases, inl, inr,
}
use shelter_server.Clients.Tcp
use shelter_server.Clients.Udp
use shelter_server.Clients.Udp.{UdpClientData, SockAddr, known_clients}
use shelter_server.Supplies.{FoodSupply, MedicineSupply, no_food, no_medicine}
use shelter_server.Supplies.Stock.{FoodSegment, MedicineSegment}
use shelter_server.Emergency.{update_emergency_info}
use shelter_server.Server.{Server, Effect, connected, opened, sent, sent_to, closed, emit}
use shelter_server.Log.{log_event}
use shelter_server.Registry.{
  add_tcp_client, remove_tcp_client, remove_tcp_found, add_udp_unless, add_udp_client,
}
use shelter_server.Summary.{set_emergency}
use shelter_server.TcpHandler.{unwatch}
use shelter_server.AlertHandler.{count_detected}
use shelter_server.EventLoop.{Sockets, reset_counts, watch_sockets, init_shared_memory_supplies}
use shelter_server.Invariant.{Keeps, Keeps-pure}
use shelter_server.Invariant.Closed.{Closed}

pub record Inv (s : Server) : Type 0 where
  pub tcp : Tcp.IsValid s.tcp_clients
  pub udp : Udp.IsValid s.udp_clients
  pub food : FoodSegment s.food
  pub medicine : MedicineSegment s.medicine
  pub keepalived : length s.emergency_info.last_keepalived ≡ 30
  pub event : length s.emergency_info.last_event ≡ 100

pub emit-Inv : (e : Effect) → Keeps Inv (emit e)
emit-Inv e = record {
  at = λ s h. record {
    tcp = h.tcp;
    udp = h.udp;
    food = h.food;
    medicine = h.medicine;
    keepalived = h.keepalived;
    event = h.event;
  };
}

pub log_event-Inv : (message : Bytes) → Keeps Inv (log_event message)
unfolding log_event
log_event-Inv message = record { at = λ s h. ground arith }

-- The invariant with a new list of clients.
with_tcp :
    (s : Server) (l : Tcp.TcpClientList)
    → Inv s
    → Tcp.IsValid l
    → Inv (record s { tcp_clients = l })
with_tcp s l h v = record {
  tcp = v;
  udp = h.udp;
  food = h.food;
  medicine = h.medicine;
  keepalived = h.keepalived;
  event = h.event;
}

with_udp :
    (s : Server) (l : Udp.UdpClientList)
    → Inv s
    → Udp.IsValid l
    → Inv (record s { udp_clients = l })
with_udp s l h v = record {
  tcp = h.tcp;
  udp = v;
  food = h.food;
  medicine = h.medicine;
  keepalived = h.keepalived;
  event = h.event;
}

pub add_tcp_client-Inv : (fd : ℕ) → Keeps Inv (add_tcp_client fd)
unfolding add_tcp_client
add_tcp_client-Inv fd = record {
  at = λ s h. elim (Bool-cases (Tcp.has_room s.tcp_clients)) [
    | inl room ↦ rw room (
        (log_event-Inv _).at _ (with_tcp s _ h (Tcp.append_fd-IsValid fd s.tcp_clients h.tcp room)))
    | inr full ↦ rw full h
  ];
}

remove_tcp_found-Inv : (o : Option ℕ) → Keeps Inv (remove_tcp_found o)
unfolding remove_tcp_found
remove_tcp_found-Inv none = Keeps-pure tt
remove_tcp_found-Inv (some i) = record {
  at = λ s h.
      (log_event-Inv _).at _
        (with_tcp s _ h (Tcp.remove_found-IsValid (some i) s.tcp_clients h.tcp));
}

pub remove_tcp_client-Inv : (fd : ℕ) → Keeps Inv (remove_tcp_client fd)
unfolding remove_tcp_client
remove_tcp_client-Inv fd = record { at = λ s h. (remove_tcp_found-Inv _).at s h }

pub add_udp_client-Inv : (client : UdpClientData) → Keeps Inv (add_udp_client client)
unfolding add_udp_client add_udp_unless
add_udp_client-Inv client = record {
  at = λ s h. elim (Option-cases (Udp.find_known client s.udp_clients)) [
    | inr (i, known) ↦ rw known h
    | inl fresh ↦ rw fresh (elim (Bool-cases (Udp.has_room s.udp_clients)) [
      | inl room ↦ rw room (
          (log_event-Inv _).at _
            (with_udp s _ h (Udp.append_client-IsValid client s.udp_clients h.udp room fresh)))
      | inr full ↦ rw full h
    ])
  ];
}

-- A state with the same data has the invariant too.
pub same_data :
    (s t : Server)
    → s.tcp_clients ≡ t.tcp_clients
    → s.udp_clients ≡ t.udp_clients
    → s.food ≡ t.food
    → s.medicine ≡ t.medicine
    → s.emergency_info ≡ t.emergency_info
    → Inv t
    → Inv s
same_data s t a b c d e h = record {
  tcp = rw a h.tcp;
  udp = rw b h.udp;
  food = rw c h.food;
  medicine = rw d h.medicine;
  keepalived = rw e h.keepalived;
  event = rw e h.event;
}

set_emergency-Inv : (event : Bytes) → Keeps Inv (set_emergency event)
unfolding set_emergency update_emergency_info
set_emergency-Inv event = record {
  at = λ s h. record {
    tcp = h.tcp;
    udp = h.udp;
    food = h.food;
    medicine = h.medicine;
    keepalived = length-strncpy s.host.clock 30;
    event = length-strncpy event 100;
  };
}

count_detected-Inv : (entry : Option Bytes) → Keeps Inv (count_detected entry)
unfolding count_detected
count_detected-Inv none = Keeps-pure tt
count_detected-Inv (some entry) = record { at = λ s h. same_data _ s refl refl refl refl refl h }

unwatch-Inv : (fd : ℕ) → Keeps Inv (unwatch fd)
unfolding unwatch
unwatch-Inv fd = record { at = λ s h. same_data _ s refl refl refl refl refl h }

pub Inv-Closed : Closed Inv
Inv-Closed = record {
  quiet = record {
    sent_to_rule = λ fd a m. emit-Inv (sent_to fd a m);
    log_rule = log_event-Inv;
    add_udp_rule = add_udp_client-Inv;
    emergency_rule = set_emergency-Inv;
    count_rule = count_detected-Inv;
  };
  connected_rule = λ fd. emit-Inv (connected fd);
  opened_rule = λ fd. emit-Inv (opened fd);
  sent_rule = λ fd m. emit-Inv (sent fd m);
  closed_rule = λ fd. emit-Inv (closed fd);
  add_tcp_rule = add_tcp_client-Inv;
  remove_tcp_rule = remove_tcp_client-Inv;
  unwatch_rule = unwatch-Inv;
}

-- The invariant with new stocks.
pub with_stocks :
    (s : Server) (food : Option FoodSupply) (medicine : Option MedicineSupply)
    → Inv s
    → FoodSegment food
    → MedicineSegment medicine
    → Inv (record s { food = food; medicine = medicine })
with_stocks s food medicine h f m = record {
  tcp = h.tcp;
  udp = h.udp;
  food = f;
  medicine = m;
  keepalived = h.keepalived;
  event = h.event;
}

pub reset_counts-Inv : Keeps Inv reset_counts
unfolding reset_counts
reset_counts-Inv = record { at = λ s h. same_data _ s refl refl refl refl refl h }

pub watch_sockets-Inv : (sockets : Sockets) → Keeps Inv (watch_sockets sockets)
unfolding watch_sockets
watch_sockets-Inv sockets = record { at = λ s h. same_data _ s refl refl refl refl refl h }

pub init_shared_memory_supplies-Inv : (f m : Bool) → Keeps Inv (init_shared_memory_supplies f m)
unfolding init_shared_memory_supplies
init_shared_memory_supplies-Inv false m = Keeps-pure tt
init_shared_memory_supplies-Inv true false = record {
  at = λ s h. with_stocks s (some no_food) s.medicine h (omega arith) h.medicine;
}
init_shared_memory_supplies-Inv true true = record {
  at = λ s h. with_stocks s (some no_food) (some no_medicine) h (omega arith) (omega arith);
}
