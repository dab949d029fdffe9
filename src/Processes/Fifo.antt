-- ===== src/Processes/Fifo.antt =====
-- The FIFO of the alerts between two processes of src/server/server.c that run in any order: the
-- server, which opens it in start_server, and the child for infection alerts, which removes and makes
-- it (cleanup_fifo, initiateAlertModule) and opens it again for each alert (send_alert of
-- lib/alertInfection/src/alertInfection.c). unlink, mkfifo and open are those of POSIX.
pub mod Delivery
pub mod Early
use shelter_server.Prelude.{
  ℕ, ◌+◌, Bytes, Bool, true, false, Option, none, some, List, [], ◌∷◌, ◌++◌, ◌==◌, if◌then◌else◌,
}

-- The server before and after its `open` of FIFO_PATH, by the number of the FIFO, and after exit.
pub data ServerAt : Type 0 where
  opening : ServerAt
  holding : ℕ → ServerAt
  ended : ServerAt

-- The child's next call: cleanup_fifo, mkfifo, or `open` for an alert.
pub data ChildAt : Type 0 where
  cleaning : ChildAt
  making : ChildAt
  sending : ChildAt

-- `path` is the FIFO that FIFO_PATH names, `made` the number of the next one; the alerts are those
-- that the sensors have yet to raise, and those written, each with its FIFO.
pub record Fifos : Type 0 where
  pub path : Option ℕ
  pub made : ℕ
  pub server : ServerAt
  pub child : ChildAt
  pub alerts : List Bytes
  pub written : List (ℕ × Bytes)

-- unlink, which may be refused.
unfoldable pub cleanup_fifo : Bool → Fifos → Fifos
cleanup_fifo true s = record s { path = none }
cleanup_fifo false s = s

-- mkfifo fails where the path exists, which is only shown.
unfoldable pub make_fifo : Fifos → Fifos
make_fifo s = elim s.path [ none ↦ record s { path = some s.made; made = s.made + 1 } | some n ↦ s ]

abbrev pub reads : ServerAt → ℕ → Bool
reads opening n = false
reads (holding m) n = m == n
reads ended n = false

-- send_alert for the next alert: `open` with O_WRONLY fails where there is no FIFO, and waits where
-- no process has it open for reading.
unfoldable pub send_to_fifo : List Bytes → Fifos → Fifos
send_to_fifo [] s = s
send_to_fifo (alert ∷ alerts) s = elim s.path [
  | none ↦ record s { alerts = alerts }
  | some n ↦
      if reads s.server n
      then record s { alerts = alerts; written = s.written ++ (n, alert) ∷ [] }
      else s
]

unfoldable pub child_turn : Bool → ChildAt → Fifos → Fifos
unfolding cleanup_fifo make_fifo send_to_fifo
child_turn can_unlink cleaning s = record (cleanup_fifo can_unlink s) { child = making }
child_turn can_unlink making s = record (make_fifo s) { child = sending }
child_turn can_unlink sending s = send_to_fifo s.alerts s

-- `open` with O_RDWR, after sleep(1).
unfoldable pub server_turn : ServerAt → Fifos → Fifos
server_turn opening s = elim s.path [
  | none ↦ record s { server = ended }
  | some n ↦ record s { server = holding n }
]
server_turn (holding n) s = s
server_turn ended s = s

pub data Process : Type 0 where
  the_server : Process
  the_child : Process

-- The processes' turns one after another.
unfoldable pub interleave : Bool → List Process → Fifos → Fifos
unfolding child_turn server_turn
interleave can_unlink [] s = s
interleave can_unlink (the_server ∷ turns) s = interleave can_unlink turns (server_turn s.server s)
interleave can_unlink (the_child ∷ turns) s =
    interleave can_unlink turns (child_turn can_unlink s.child s)

-- Both processes at their start; an earlier run may have left a FIFO.
abbrev pub at_start : Option ℕ → ℕ → List Bytes → Fifos
at_start stale made alerts = record {
  path = stale;
  made = made;
  server = opening;
  child = cleaning;
  alerts = alerts;
  written = [];
}
