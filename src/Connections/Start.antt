-- ===== src/Connections/Start.antt =====
-- The connections from the first line of start_server on.
use shelter_server.Prelude.{ℕ, ◌≡◌, refl, Bool, true, false, List, [], arith, subst, ◌⊎◌, inl, inr}
use shelter_server.Json.{CJson}
use shelter_server.Net.{Ntop}
use shelter_server.Clients.Tcp
use shelter_server.Clients.Tcp.{clients}
use shelter_server.Server.{Server, Host, Outcome, done, exited}
use shelter_server.Log.{log_event}
use shelter_server.EventLoop.{
  Sockets, Round, larger, prepare, reset_counts, init_shared_memory_supplies, watch_sockets,
  start_server, boot,
}
use shelter_server.Invariant.{Keeps, Keeps-pure}
use shelter_server.Connections.{View, Matches, view, Seen, Safe, Goes, IsFresh, SentToOpen}
use shelter_server.Connections.Effects.{Ends-bind, seen_quiet, ends}
use shelter_server.Connections.Loop.{descriptors, serve-Goes}

module _ (c : CJson) (net : Ntop) (socks : Sockets) where
  abbrev own : List ℕ
  own = descriptors socks

  -- No connection was made.
  abbrev Unused : View → Type 0
  Unused v = (v.tcp_clients ≡ Tcp.no_clients) × (v.open_now ≡ [])

  init-Unused : (f m : Bool) → Keeps (Seen own Unused) (init_shared_memory_supplies f m)
  unfolding init_shared_memory_supplies
  init-Unused false m = Keeps-pure tt
  init-Unused true false = record { at = λ s h. h }
  init-Unused true true = record { at = λ s h. h }

  sockets_watched :
      (v : View)
      → Unused v
      → Matches own [] (record v {
        max_fd =
            larger
              (larger (larger socks.tcp_socket_fd socks.udp_socket_fd) socks.fifo_fd)
              socks.unix_socket_fd;
        master_fds = own;
      })
  unfolding clients
  sockets_watched v (none_listed, none_open) = record {
    watched = rw none_open refl;
    below = λ n h. ground arith;
    listed = rw none_listed (λ n h. absurd cc);
    distinct = rw none_listed tt;
    valid = rw none_listed (ground arith);
    complete = rw none_open (λ few n h. absurd cc);
  }

  prepare-Goes :
      (f m : Bool) (s : Server)
      → Seen own Unused s
      → Goes own (λ v. Matches own [] v) (prepare socks f m s)
  unfolding prepare reset_counts watch_sockets
  prepare-Goes f m s h =
      Ends-bind (λ _. Seen own Unused) _ (Safe own) (log_event _ s) _
        (ends own Unused Unused _ (λ v q. q) (((seen_quiet own Unused).log_rule _).at s h))
        (λ _ t p.
          Ends-bind (λ _. Seen own Unused) _ (Safe own) (init_shared_memory_supplies f m _) _
            (ends own Unused Unused _ (λ v q. q) ((init-Unused f m).at _ p))
            (λ _ u q fresh. (sockets_watched (view u) (q fresh).0, (q fresh).1)))

  started :
      (host : Host) (f m : Bool) (rounds : List Round)
      → Goes own (λ v. Matches own [] v) (start_server c net socks f m rounds (boot host))
  unfolding start_server
  started host f m rounds =
      Ends-bind (λ _. Seen own (λ v. Matches own [] v)) _ (Safe own) (prepare socks f m (boot host))
        _ (prepare-Goes f m (boot host) (λ fresh. ((refl, refl), tt)))
        (λ _ t p. serve-Goes c net socks rounds t p)

  at_end :
      (o : Outcome (Unit {0})) (t : Server)
      → o ≡ done tt t
      → Goes own (λ v. Matches own [] v) o
      → Seen own (λ v. Matches own [] v) t
  at_end o t e h = subst (λ p. Goes own (λ v. Matches own [] v) p) e h

  stopped :
      (o : Outcome (Unit {0})) (t : Server)
      → o ≡ exited t
      → Goes own (λ v. Matches own [] v) o
      → Safe own t
  stopped o t e h = subst (λ p. Goes own (λ v. Matches own [] v) p) e h

  -- Between the rounds of every history in which accept never returns a descriptor that is in use,
  -- and also after the last one: the descriptors that the server watches are exactly the open TCP
  -- connections and its four sockets, and none of them lies above the bound of its loop; the clients
  -- in its list are distinct open connections, within the array; and every open connection is in the
  -- list, if no TCP connection was accepted while five or more were open.
  pub start_server-Matches :
      (host : Host) (f m : Bool) (rounds : List Round) (t : Server)
      → start_server c net socks f m rounds (boot host) ≡ done tt t
      → IsFresh own t.trace
      → Matches own [] (view t)
  start_server-Matches host f m rounds t e fresh = (at_end _ t e (started host f m rounds) fresh).0

  -- In every history in which accept never returns a descriptor that is in use, whether the server
  -- still runs, was stopped or left by `exit`, each send went to a descriptor that accept had
  -- returned and that was not closed since.
  pub start_server-SentToOpen :
      (host : Host) (f m : Bool) (rounds : List Round) (t : Server)
      → (start_server c net socks f m rounds (boot host) ≡ done tt t)
        ⊎ (start_server c net socks f m rounds (boot host) ≡ exited t)
      → IsFresh own t.trace
      → SentToOpen t.trace
  start_server-SentToOpen host f m rounds t (inl e) fresh =
      (at_end _ t e (started host f m rounds) fresh).1
  start_server-SentToOpen host f m rounds t (inr e) fresh =
      stopped _ t e (started host f m rounds) fresh
