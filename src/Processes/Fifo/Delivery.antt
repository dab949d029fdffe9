-- ===== src/Processes/Fifo/Delivery.antt =====
-- Where the alerts of the child for infection alerts go, by the order of its calls and the server's
-- in src/server/server.c.
use shelter_server.Prelude.{
  ℕ, zero, suc, ◌+◌, ◌≤◌, ◌≡◌, refl, sym, subst, ◌∙◌, Bytes, Bool, true, false, Option, none, some,
  List, [], ◌∷◌, ◌++◌, append-nil, append_assoc, ◌==◌, arith, take, replicate,
}
use shelter_server.Processes.Fifo.{
  ServerAt, opening, holding, sending, Fifos, send_to_fifo, Process, the_server, the_child,
  interleave, at_start,
}

abbrev pub child_turns : List Process → ℕ
child_turns [] = 0
child_turns (the_server ∷ turns) = child_turns turns
child_turns (the_child ∷ turns) = suc (child_turns turns)

-- These alerts, in the FIFO `n`.
abbrev pub all_in : ℕ → List Bytes → List (ℕ × Bytes)
all_in n [] = []
all_in n (alert ∷ alerts) = (n, alert) ∷ all_in n alerts

-- The server holds the FIFO at the path, and this was written.
abbrev pub Delivers : ℕ → List (ℕ × Bytes) → Fifos → Type 0
Delivers n all s = (s.server ≡ holding n) × (s.path ≡ some n) × (s.written ≡ all)

-- The server's first turn comes after `k` of the child's.
abbrev pub schedule : ℕ → List Process → List Process
schedule k turns = replicate k the_child ++ the_server ∷ turns

abbrev child_sends : Option ℕ → ℕ → ServerAt → List Bytes → List (ℕ × Bytes) → Fifos
child_sends path made server alerts written = record {
  path = path;
  made = made;
  server = server;
  child = sending;
  alerts = alerts;
  written = written;
}

take_nil : (k : ℕ) → take {A = Bytes} k [] ≡ []
take_nil zero = refl
take_nil (suc k) = refl

one_sent :
    (n made : ℕ) (alert : Bytes) (alerts : List Bytes) (written : List (ℕ × Bytes))
    → send_to_fifo (alert ∷ alerts) (child_sends (some n) made (holding n) (alert ∷ alerts) written)
      ≡ child_sends (some n) made (holding n) alerts (written ++ (n, alert) ∷ [])
unfolding send_to_fifo
one_sent n made alert alerts written = let e : (n == n) ≡ true = grind arith in rw e refl

-- The child removes what was there, and makes the FIFO.
fifo_made :
    (can_unlink : Bool) (stale : Option ℕ) (made : ℕ) (alerts : List Bytes) (turns : List Process)
    → (n m : ℕ) × (interleave can_unlink
          (the_child ∷ the_child ∷ turns)
          (at_start stale made alerts)
        ≡ interleave can_unlink turns (child_sends (some n) m opening alerts []))
unfolding interleave
fifo_made true stale made alerts turns = (made, made + 1, refl)
fifo_made false none made alerts turns = (made, made + 1, refl)
fifo_made false (some n) made alerts turns = (n, made, refl)

module _ (can_unlink : Bool) where
  abbrev run : List Process → Fifos → Fifos
  run = interleave can_unlink

  -- Alerts wait as long as the server has not opened the FIFO.
  waits :
      (k n made : ℕ) (alerts : List Bytes) (turns : List Process)
      → run (replicate k the_child ++ turns) (child_sends (some n) made opening alerts [])
        ≡ run turns (child_sends (some n) made opening alerts [])
  unfolding interleave
  waits zero n made alerts turns = refl
  waits (suc k) n made [] turns = waits k n made [] turns
  waits (suc k) n made (alert ∷ alerts) turns = waits k n made (alert ∷ alerts) turns

  sends :
      (n made : ℕ) (turns : List Process) (alerts : List Bytes) (written : List (ℕ × Bytes))
      → Delivers n
          (written ++ all_in n (take (child_turns turns) alerts))
          (run turns (child_sends (some n) made (holding n) alerts written))
  unfolding interleave
  sends n made [] alerts written = (refl, refl, sym (append-nil written))
  sends n made (the_server ∷ turns) alerts written = sends n made turns alerts written
  sends n made (the_child ∷ turns) [] written =
      subst
        (λ xs.
          Delivers n (written ++ all_in n xs)
            (run turns (child_sends (some n) made (holding n) [] written)))
        (take_nil (child_turns turns)) (sends n made turns [] written)
  sends n made (the_child ∷ turns) (alert ∷ alerts) written =
      subst
        (λ s.
          Delivers n (written ++ (n, alert) ∷ all_in n (take (child_turns turns) alerts))
            (run turns s))
        (sym (one_sent n made alert alerts written))
        (subst
          (λ xs.
            Delivers n xs (
              run turns
                (child_sends (some n) made (holding n) alerts (written ++ (n, alert) ∷ []))))
          (append_assoc written ((n, alert) ∷ []) (all_in n (take (child_turns turns) alerts)))
          (sends n made turns alerts (written ++ (n, alert) ∷ [])))

  -- If the child has both removed and made the FIFO when the server opens it, then the server holds the
  -- FIFO at the path, and each later turn of the child writes the next alert to it, as long as there
  -- are alerts: in their order, none is lost, and the ones that came up before wait for the server.
  -- This holds for every order of the later turns, whether or not there was a FIFO of an earlier run,
  -- and whether or not that could be removed.
  pub fifo_delivery :
      (stale : Option ℕ) (made k : ℕ) (alerts : List Bytes) (turns : List Process)
      → 2 ≤ k
      → let s : Fifos = run (schedule k turns) (at_start stale made alerts) in
        (n : ℕ) × Delivers n (all_in n (take (child_turns turns) alerts)) s
  unfolding interleave
  fifo_delivery stale made zero alerts turns h = absurd (omega arith)
  fifo_delivery stale made (suc zero) alerts turns h = absurd (omega arith)
  fifo_delivery stale made (suc (suc k)) alerts turns h =
      let (n, m, e) = fifo_made can_unlink stale made alerts (schedule k turns) in
      (
        n,
        subst (Delivers n (all_in n (take (child_turns turns) alerts)))
            (sym (e ∙ waits k n m alerts (the_server ∷ turns))) (sends n m turns alerts []),
      )
