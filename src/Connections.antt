-- ===== src/Connections.antt =====
-- The TCP connections of src/server/server.c over the history of its effects: which descriptors are
-- open, and what a state has to do with them.
pub mod Sets
pub mod Steps
pub mod Effects
pub mod Accept
pub mod Handlers
pub mod Loop
pub mod Start
use shelter_server.Prelude.{
  ℕ, ◌≤◌, ◌≡◌, Bool, true, false, Option, none, some, List, [], ◌∷◌, ◌++◌, leb, length, ◌||◌,
}
use shelter_server.Clients.Tcp
use shelter_server.Clients.Tcp.{TcpClientList, clients, max_clients}
use shelter_server.Server.{
  Server, Effect, connected, opened, sent, sent_to, logged, closed, killed, Outcome, done, exited,
  fault,
}
use shelter_server.TcpHandler.{has, fd_clear}
use shelter_server.Connections.Sets.{Within, Distinct}

-- The descriptors that accept has returned and that were not closed since.
abbrev pub open_fds : List Effect → List ℕ
open_fds [] = []
open_fds (connected fd ∷ effects) = fd ∷ open_fds effects
open_fds (opened fd ∷ effects) = fd ∷ open_fds effects
open_fds (sent fd message ∷ effects) = open_fds effects
open_fds (sent_to fd addr message ∷ effects) = open_fds effects
open_fds (logged path time message ∷ effects) = open_fds effects
open_fds (closed fd ∷ effects) = fd_clear fd (open_fds effects)
open_fds (killed pid ∷ effects) = open_fds effects

-- Accept returned no descriptor that was in use: neither one that was open, nor one of these.
abbrev pub IsFresh : List ℕ → List Effect → Type 0
IsFresh sockets [] = Unit
IsFresh sockets (connected fd ∷ effects) =
    (has fd (open_fds effects) ≡ false) × (has fd sockets ≡ false) × IsFresh sockets effects
IsFresh sockets (opened fd ∷ effects) =
    (has fd (open_fds effects) ≡ false) × (has fd sockets ≡ false) × IsFresh sockets effects
IsFresh sockets (sent fd message ∷ effects) = IsFresh sockets effects
IsFresh sockets (sent_to fd addr message ∷ effects) = IsFresh sockets effects
IsFresh sockets (logged path time message ∷ effects) = IsFresh sockets effects
IsFresh sockets (closed fd ∷ effects) = IsFresh sockets effects
IsFresh sockets (killed pid ∷ effects) = IsFresh sockets effects

-- A TCP connection was accepted while five descriptors were open.
abbrev pub is_crowded : List Effect → Bool
is_crowded [] = false
is_crowded (connected fd ∷ effects) =
    leb max_clients (length (open_fds effects)) || is_crowded effects
is_crowded (opened fd ∷ effects) = is_crowded effects
is_crowded (sent fd message ∷ effects) = is_crowded effects
is_crowded (sent_to fd addr message ∷ effects) = is_crowded effects
is_crowded (logged path time message ∷ effects) = is_crowded effects
is_crowded (closed fd ∷ effects) = is_crowded effects
is_crowded (killed pid ∷ effects) = is_crowded effects

-- Every send was made on a descriptor that was open then.
abbrev pub SentToOpen : List Effect → Type 0
SentToOpen [] = Unit
SentToOpen (connected fd ∷ effects) = SentToOpen effects
SentToOpen (opened fd ∷ effects) = SentToOpen effects
SentToOpen (sent fd message ∷ effects) = (has fd (open_fds effects) ≡ true) × SentToOpen effects
SentToOpen (sent_to fd addr message ∷ effects) = SentToOpen effects
SentToOpen (logged path time message ∷ effects) = SentToOpen effects
SentToOpen (closed fd ∷ effects) = SentToOpen effects
SentToOpen (killed pid ∷ effects) = SentToOpen effects

-- What a state says of the connections.
pub record View : Type 0 where
  pub master_fds : List ℕ
  pub max_fd : ℕ
  pub tcp_clients : TcpClientList
  pub open_now : List ℕ
  pub crowded : Bool

abbrev pub view : Server → View
view s = record {
  master_fds = s.master_fds;
  max_fd = s.max_fd;
  tcp_clients = s.tcp_clients;
  open_now = open_fds s.trace;
  crowded = is_crowded s.trace;
}

-- The state where all descriptors but the `extra` ones have been dealt with: the watched ones are the
-- open ones and the sockets, none lies above max_fd, and the listed clients are open and distinct; and
-- all open ones are listed, if no more than five were open at once.
pub record Matches (sockets extra : List ℕ) (v : View) : Type 0 where
  pub watched : extra ++ v.master_fds ≡ v.open_now ++ sockets
  pub below : (n : ℕ) → has n v.master_fds ≡ true → n ≤ v.max_fd
  pub listed : Within (clients v.tcp_clients) v.open_now
  pub distinct : Distinct (clients v.tcp_clients)
  pub valid : Tcp.IsValid v.tcp_clients
  pub complete :
      v.crowded ≡ false
      → (n : ℕ) → has n v.open_now ≡ true
      → has n (extra ++ clients v.tcp_clients) ≡ true

-- The action ends normally with `P` of its value, or by `exit` with `R`.
abbrev pub Ends : {A : Type 0} → (A → Server → Type 0) → (Server → Type 0) → Outcome A → Type 0
Ends P R (done a s) = P a s
Ends P R (exited s) = R s
Ends P R fault = Unit

module _ (sockets : List ℕ) where
  abbrev pub Safe : Server → Type 0
  Safe s = IsFresh sockets s.trace → SentToOpen s.trace

  -- A predicate of the view, as long as accept returns fresh descriptors.
  abbrev pub Seen : (View → Type 0) → Server → Type 0
  Seen Q s = IsFresh sockets s.trace → Q (view s) × SentToOpen s.trace

  -- Ends with this predicate of the view, or safely by `exit`.
  abbrev pub Goes : {A : Type 0} → (View → Type 0) → Outcome A → Type 0
  Goes Q o = Ends (λ _. Seen Q) Safe o
