-- ===== src/Invariant/Results.antt =====
-- Actions that return: the rules of `Returns`, and log_event of src/server/server.c where HOME is set.
use shelter_server.Prelude.{ℕ, Bytes, ◌≡◌, Option, none, some, arith, Bool-cases, inl, inr}
use shelter_server.Server.{Server, M, Outcome, done, exited, fault, bind_outcome, Returns}
use shelter_server.Log.{log_event}
use shelter_server.Clients.Udp
use shelter_server.Clients.Udp.{UdpClientData, find_known}
use shelter_server.Registry.{add_udp_unless, add_udp_client}
use shelter_server.Invariant.Core.{Core, SameCore}

module _ {A B : Type 0} where
  pub Returns-bind :
      (P Q : Server → Type 0) (o : Outcome A) (f : A → M B)
      → Returns P o
      → ((a : A) (t : Server) → P t → Returns Q (f a t))
      → Returns Q (bind_outcome o f)
  Returns-bind P Q (done a s) f h k = k a s h
  Returns-bind P Q (exited s) f h k = h
  Returns-bind P Q fault f h k = h

pub Returns-map :
    {A : Type 0} (P Q : Server → Type 0) (o : Outcome A)
    → Returns P o
    → ((t : Server) → P t → Q t)
    → Returns Q o
Returns-map P Q (done a s) h k = k s h
Returns-map P Q (exited s) h k = h
Returns-map P Q fault h k = h

pub log_event-Returns :
    (message home : Bytes) (k : Core) (s : Server)
    → s.host.home ≡ some home
    → SameCore k s
    → Returns (SameCore k) (log_event message s)
unfolding log_event
log_event-Returns message home k s h e = rw h (ground arith)

-- The same core, and HOME still set.
abbrev pub IsReady : Core → Bytes → Server → Type 0
IsReady k home s = SameCore k s × (s.host.home ≡ some home)

pub log_event-IsReady :
    (message home : Bytes) (k : Core) (s : Server)
    → IsReady k home s
    → Returns (IsReady k home) (log_event message s)
unfolding log_event
log_event-IsReady message home k s h = rw h.1 (ground arith)

add_udp_unless-IsReady :
    (o : Option ℕ) (client : UdpClientData) (home : Bytes) (k : Core) (s : Server)
    → IsReady k home s
    → Returns (IsReady k home) (add_udp_unless o client s)
unfolding add_udp_unless
add_udp_unless-IsReady (some i) client home k s h = h
add_udp_unless-IsReady none client home k s h = elim (Bool-cases (Udp.has_room s.udp_clients)) [
  | inl room ↦ rw room (log_event-IsReady _ home k _ h)
  | inr full ↦ rw full h
]

pub add_udp_client-IsReady :
    (client : UdpClientData) (home : Bytes) (k : Core) (s : Server)
    → IsReady k home s
    → Returns (IsReady k home) (add_udp_client client s)
unfolding add_udp_client
add_udp_client-IsReady client home k s h =
    add_udp_unless-IsReady (find_known client s.udp_clients) client home k s h
