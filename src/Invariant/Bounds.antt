-- ===== src/Invariant/Bounds.antt =====
-- The bounds of the server's data (`Inv`) over start_server and all its handlers, in
-- src/server/server.c.
use shelter_server.Prelude.{
  ℕ, refl, Bool, true, false, Option, none, some, List, [], ◌∷◌, arith, if◌then◌else◌,
}
use shelter_server.Json.{CJson}
use shelter_server.Clients.Udp.{SockAddr, known_clients}
use shelter_server.Supplies.{FoodSupply, MedicineSupply, update_food_at, update_medicine_at}
use shelter_server.Supplies.Stock.{
  FoodSegment, MedicineSegment, update_food-IsFoodStock, update_medicine-IsMedicineStock,
}
use shelter_server.Server.{killed, Server, Host, deref, put_state, bind_outcome, ◌>>=◌, Ensures}
use shelter_server.Net.{Ntop}
use shelter_server.Summary.{update_supplies_from_json}
use shelter_server.AlertHandler.{stop_running}
use shelter_server.EventLoop.{
  Sockets, Answers, Round, selected, signalled, select_failed, select_interrupted, host_changed,
  watch, set_host, prepare, start_server, boot,
}
use shelter_server.Invariant.{Keeps, Keeps-bind}
use shelter_server.Invariant.Alerts.{sigint_handler-Keeps}
use shelter_server.Invariant.Loop.{
  ClosedLoop, OnAccepted, OnAnswers, OnRound, OnRounds, serve-Keeps,
}
use shelter_server.Invariant.Data.{
  Inv, emit-Inv, log_event-Inv, Inv-Closed, with_stocks, same_data, reset_counts-Inv,
  watch_sockets-Inv, init_shared_memory_supplies-Inv,
}

module _ (c : CJson) where
  open c use {Json}

  -- The segments after the two halves of an update that met no NULL pointer.
  abbrev FoodResult : Option (Option FoodSupply) → Type 0
  FoodResult none = Unit
  FoodResult (some food) = FoodSegment food

  abbrev MedicineResult : Option (Option MedicineSupply) → Type 0
  MedicineResult none = Unit
  MedicineResult (some medicine) = MedicineSegment medicine

  if-FoodResult : (b : Bool) → FoodResult (if b then none else some none)
  if-FoodResult true = tt
  if-FoodResult false = tt

  if-MedicineResult : (b : Bool) → MedicineResult (if b then none else some none)
  if-MedicineResult true = tt
  if-MedicineResult false = tt

  update_food_at-FoodResult :
      (o : Option FoodSupply) (json : Json) → FoodSegment o → FoodResult (update_food_at c o json)
  unfolding update_food_at
  update_food_at-FoodResult none json h = if-FoodResult _
  update_food_at-FoodResult (some f) json h = update_food-IsFoodStock c _ f h

  update_medicine_at-MedicineResult :
      (o : Option MedicineSupply) (json : Json)
      → MedicineSegment o
      → MedicineResult (update_medicine_at c o json)
  unfolding update_medicine_at
  update_medicine_at-MedicineResult none json h = if-MedicineResult _
  update_medicine_at-MedicineResult (some m) json h = update_medicine-IsMedicineStock c _ m h

  update_supplies_from_json-Inv : (json : Json) → Keeps Inv (update_supplies_from_json c json)
  unfolding update_supplies_from_json
  update_supplies_from_json-Inv json = record {
    at = λ s h.
        stored s h (update_food_at c s.food json) (update_medicine_at c s.medicine json)
          (update_food_at-FoodResult s.food json h.food)
          (update_medicine_at-MedicineResult s.medicine json h.medicine);
  }
    where
      stored :
          (s : Server)
          → Inv s
          → (f : Option (Option FoodSupply)) (m : Option (Option MedicineSupply)) → FoodResult f
          → MedicineResult m
          → Ensures Inv (
              bind_outcome (deref f s) (λ food.
                deref m >>= λ medicine. put_state (record s { food = food; medicine = medicine })))
      stored s h none m p q = tt
      stored s h (some f) none p q = tt
      stored s h (some f) (some m) p q = with_stocks s f m h p q

  module _ (net : Ntop) (sockets : Sockets) where
    watch-Inv : (fd : ℕ) → Unit {0} → Keeps Inv (watch c net sockets (some fd))
    unfolding watch
    watch-Inv fd g = record { at = λ s h. same_data _ s refl refl refl refl refl h }

    host-Inv : (host : Host) → Keeps Inv (set_host c net sockets host)
    unfolding set_host
    host-Inv host = record { at = λ s h. same_data _ s refl refl refl refl refl h }

    stop-Inv : Keeps Inv stop_running
    unfolding stop_running
    stop-Inv = record { at = λ s h. same_data _ s refl refl refl refl refl h }

    Inv-ClosedLoop : ClosedLoop Inv (λ _. Unit) c net sockets
    Inv-ClosedLoop = record {
      closed = Inv-Closed;
      supplies_rule = update_supplies_from_json-Inv;
      watch_rule = watch-Inv;
      sigint_rule = sigint_handler-Keeps (λ pid. emit-Inv (killed pid)) stop-Inv;
      host_rule = host-Inv;
    }

    pub any_answers : (a : Option Answers) → OnAnswers (λ _. Unit) a
    any_answers none = tt
    any_answers (some a) = any_accepted a.accepted_tcp
      where
        any_accepted : (accepted : Option (ℕ × SockAddr)) → OnAccepted (λ _. Unit) accepted
        any_accepted none = tt
        any_accepted (some (fd, addr)) = tt

    any_round : (r : Round) → OnRound (λ _. Unit) r
    any_round (selected ready) = λ fd. any_answers (ready fd)
    any_round (signalled ready) = λ fd. any_answers (ready fd)
    any_round select_failed = tt
    any_round select_interrupted = tt
    any_round (host_changed host) = tt

    pub any_rounds : (rounds : List Round) → OnRounds (λ _. Unit) rounds
    any_rounds [] = tt
    any_rounds (r ∷ rs) = (any_round r, any_rounds rs)

    boot-Inv : (host : Host) → Inv (boot host)
    boot-Inv host = record {
      tcp = omega arith;
      udp = record { size = refl; within = omega arith; distinct = unfold known_clients in tt };
      food = tt;
      medicine = tt;
      keepalived = refl;
      event = refl;
    }

    prepare-Inv : (f m : Bool) → Keeps Inv (prepare sockets f m)
    unfolding prepare
    prepare-Inv f m = Keeps-bind _ _ (log_event-Inv _) λ _.
        Keeps-bind _ _ reset_counts-Inv
          λ _. Keeps-bind _ _ (init_shared_memory_supplies-Inv f m) λ _. watch_sockets-Inv sockets

    -- Whatever the host answers and the descriptors bring, every history of rounds that meets no
    -- fault, also one that ends by `exit`, leaves the server in a state in which the two client
    -- lists are within their arrays, no two known UDP clients are the same client to the server's
    -- test, every count of the supplies is an `int` that is not negative, and the texts of the last
    -- event have the size of their arrays.
    pub start_server-Inv :
        (host : Host) (food_given medicine_given : Bool) (rounds : List Round)
        → Ensures Inv (start_server c net sockets food_given medicine_given rounds (boot host))
    unfolding start_server
    start_server-Inv host f m rounds =
        (Keeps-bind _ _ (prepare-Inv f m)
            (λ _. serve-Keeps c net sockets Inv-ClosedLoop rounds (any_rounds rounds))).at
          (boot host) (boot-Inv host)
