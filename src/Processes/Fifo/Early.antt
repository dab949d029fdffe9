-- ===== src/Processes/Fifo/Early.antt =====
-- What comes of the alerts where start_server of src/server/server.c opens the FIFO before the child for
-- infection alerts has made it.
use shelter_server.Prelude.{
  ℕ, zero, suc, ◌+◌, ◌≤◌, ◌<◌, ◌≡◌, refl, sym, subst, Bytes, true, false, Option, none, some, List,
  [], ◌∷◌, ◌==◌, arith, ne→==,
}
use shelter_server.Processes.Fifo.{
  ServerAt, opening, holding, ended, ChildAt, cleaning, making, sending, Fifos, reads, send_to_fifo,
  server_turn, Process, the_server, the_child, interleave, at_start,
}
use shelter_server.Processes.Fifo.Delivery.{schedule}

-- The server will not open the FIFO `n`.
abbrev IsOff : ℕ → ServerAt → Type 0
IsOff n opening = ⊥
IsOff n (holding m) = (m == n) ≡ false
IsOff n ended = Unit

abbrev of_child : ChildAt → Option ℕ → ℕ → ServerAt → List Bytes → Fifos
of_child child path made server alerts = record {
  path = path;
  made = made;
  server = server;
  child = child;
  alerts = alerts;
  written = [];
}

abbrev run : List Process → Fifos → Fifos
run = interleave true

stays : (n : ℕ) (v : ServerAt) (s : Fifos) → IsOff n v → server_turn v s ≡ s
unfolding server_turn
stays n opening s h = absurd h
stays n (holding m) s h = refl
stays n ended s h = refl

not_read : (n : ℕ) (v : ServerAt) → IsOff n v → reads v n ≡ false
not_read n opening h = refl
not_read n (holding m) h = h
not_read n ended h = refl

waits_for_ever :
    (n made : ℕ) (v : ServerAt) (alert : Bytes) (alerts : List Bytes)
    → IsOff n v
    → let s : Fifos = of_child sending (some n) made v (alert ∷ alerts) in
      send_to_fifo (alert ∷ alerts) s ≡ s
unfolding send_to_fifo
waits_for_ever n made v alert alerts h = rw (not_read n v h) refl

module _ (v : ServerAt) where
  -- A property of what a turn of a server that has opened no FIFO `n` leaves.
  on_server :
      (n : ℕ) (s : Fifos) (turns : List Process)
      → IsOff n v
      → (run turns s).written ≡ []
      → (run turns (server_turn v s)).written ≡ []
  on_server n s turns h e = subst (λ t. (run turns t).written ≡ []) (sym (stays n v s h)) e

  blocked :
      (n made : ℕ) (turns : List Process) (alerts : List Bytes)
      → IsOff n v
      → (run turns (of_child sending (some n) made v alerts)).written ≡ []
  unfolding interleave
  blocked n made [] alerts h = refl
  blocked n made (the_server ∷ turns) alerts h =
      on_server n (of_child sending (some n) made v alerts) turns h (blocked n made turns alerts h)
  blocked n made (the_child ∷ turns) [] h = blocked n made turns [] h
  blocked n made (the_child ∷ turns) (alert ∷ alerts) h =
      subst (λ t. (run turns t).written ≡ []) (sym (waits_for_ever n made v alert alerts h))
        (blocked n made turns (alert ∷ alerts) h)

  unmade :
      (made : ℕ) (turns : List Process) (alerts : List Bytes)
      → IsOff made v
      → (run turns (of_child making none made v alerts)).written ≡ []
  unfolding interleave
  unmade made [] alerts h = refl
  unmade made (the_server ∷ turns) alerts h =
      on_server made (of_child making none made v alerts) turns h (unmade made turns alerts h)
  unmade made (the_child ∷ turns) alerts h = blocked made (made + 1) turns alerts h

  uncleaned :
      (path : Option ℕ) (made : ℕ) (turns : List Process) (alerts : List Bytes)
      → IsOff made v
      → (run turns (of_child cleaning path made v alerts)).written ≡ []
  unfolding interleave
  uncleaned path made [] alerts h = refl
  uncleaned path made (the_server ∷ turns) alerts h =
      on_server made (of_child cleaning path made v alerts) turns h
        (uncleaned path made turns alerts h)
  uncleaned path made (the_child ∷ turns) alerts h = unmade made turns alerts h

-- If the child has not yet made the FIFO when the server opens it, where a FIFO of an earlier run has
-- another number than the new one and can be removed, then no alert is ever written, whatever the
-- order of the later turns: the server ends, or it holds the old FIFO and the child waits for a
-- reader of the new one.
pub early_open :
    (stale : Option ℕ) (made k : ℕ) (alerts : List Bytes) (turns : List Process)
    → k ≤ 1
    → ((n : ℕ) → stale ≡ some n → n < made)
    → (run (schedule k turns) (at_start stale made alerts)).written ≡ []
unfolding interleave
early_open none made zero alerts turns h old = uncleaned ended none made turns alerts tt
early_open (some n) made zero alerts turns h old =
    uncleaned (holding n) (some n) made turns alerts
      (ne→== n made (λ e. absurd (omega (arith, e, old n refl))))
early_open stale made (suc zero) alerts turns h old = unmade ended made turns alerts tt
early_open stale made (suc (suc k)) alerts turns h old = absurd (omega arith)
