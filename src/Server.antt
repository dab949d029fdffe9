-- ===== src/Server.antt =====
-- The state of the server process (the global variables of src/server/server.c), what it asks of
-- the host, its visible effects, and the actions on them.
-- An action ends normally, by `exit(EXIT_FAILURE)`, or in a fault: a read or write through NULL, past
-- the end of a buffer, or of bytes that were never written.
use shelter_server.Prelude.{ℕ, Bytes, Bool, Option, none, some, List, ◌∷◌}
use shelter_server.Clients.Tcp.{TcpClientList}
use shelter_server.Clients.Udp.{UdpClientList, SockAddr}
use shelter_server.Supplies.{FoodSupply, MedicineSupply}
use shelter_server.Emergency.{EntryAlertsCount, EmergencyInfo}

-- What the operating system answers: getenv("HOME"), stat and mkdir of the log directory, fopen of
-- the log file, the local time as "%Y-%m-%d %H:%M:%S", getpeername, and the memory for call number
-- `i` of cJSON_CreateObject in convert_supplies_to_json.
pub record Host : Type 0 where
  pub home : Option Bytes
  pub log_dir_exists : Bool
  pub can_mkdir : Bool
  pub can_open_log : Bool
  pub clock : Bytes
  pub peer : ℕ → Option SockAddr
  pub alloc : ℕ → Bool

-- A descriptor that accept returned for the TCP socket, and for the Unix socket, a call of send, of sendto, a line of a log file (its path,
-- time and message), a close, a kill with SIGINT. What is printed on the terminal is left out.
pub data Effect : Type 0 where
  connected : ℕ → Effect
  opened : ℕ → Effect
  sent : ℕ → Bytes → Effect
  sent_to : ℕ → SockAddr → Bytes → Effect
  logged : Bytes → Bytes → Bytes → Effect
  closed : ℕ → Effect
  killed : ℕ → Effect

pub record Server : Type 0 where
  pub running : Bool
  pub tcp_clients : TcpClientList
  pub udp_clients : UdpClientList
  pub entry_alerts_count : EntryAlertsCount
  pub emergency_info : EmergencyInfo
  -- The shared memory segments, and the descriptors that select watches.
  pub food : Option FoodSupply
  pub medicine : Option MedicineSupply
  pub master_fds : List ℕ
  pub max_fd : ℕ
  pub alerts_pid : ℕ
  pub power_outage_pid : ℕ
  pub host : Host
  -- The effects so far, the latest first.
  pub trace : List Effect

pub data Outcome (A : Type 0) : Type 0 where
  done : A → Server → Outcome A
  exited : Server → Outcome A
  fault : Outcome A

abbrev pub M : Type 0 → Type 0
M A = Server → Outcome A

abbrev pub pure : {A : Type 0} → A → M A
pure a s = done a s

abbrev pub exit_failure : {A : Type 0} → M A
exit_failure s = exited s

abbrev pub crash : {A : Type 0} → M A
crash s = fault

abbrev pub bind_outcome : {A B : Type 0} → Outcome A → (A → M B) → Outcome B
bind_outcome (done a s) f = f a s
bind_outcome (exited s) f = exited s
bind_outcome fault f = fault

infixl 5 ◌>>=◌ ◌>>◌
abbrev pub ◌>>=◌ : {A B : Type 0} → M A → (A → M B) → M B
◌>>=◌ m f s = bind_outcome (m s) f

abbrev pub ◌>>◌ : {B : Type 0} → M (Unit {0}) → M B → M B
m >> k = m >>= λ _. k

abbrev pub get_state : M Server
get_state s = done s s

abbrev pub put_state : Server → M (Unit {0})
put_state s _ = done tt s

abbrev pub emit : Effect → M (Unit {0})
emit e s = done tt (record s { trace = e ∷ s.trace })

-- A pointer that the code reads without a test.
abbrev pub deref : {A : Type 0} → Option A → M A
deref none = crash
deref (some a) = pure a

-- The state after an action that ended normally, or by `exit`.
abbrev pub Ensures : {A : Type 0} → (Server → Type 0) → Outcome A → Type 0
Ensures P (done a s) = P s
Ensures P (exited s) = P s
Ensures P fault = Unit

-- The same for an action that meets no fault.
abbrev pub Succeeds : {A : Type 0} → (Server → Type 0) → Outcome A → Type 0
Succeeds P (done a s) = P s
Succeeds P (exited s) = P s
Succeeds P fault = ⊥

-- The action returns, neither by `exit` nor by a fault, in a state with `P`.
abbrev pub Returns : {A : Type 0} → (Server → Type 0) → Outcome A → Type 0
Returns P (done a s) = P s
Returns P (exited s) = ⊥
Returns P fault = ⊥
