-- ===== src/SocketSetup/AvailablePort.antt =====
-- get_available_port and get_selected_port of src/server/server.c, on the system calls of SocketSetup.
-- What `getsockname` answers is the port of the address.
use shelter_server.Prelude.{ℕ, ◌≡◌, refl, Option, none, some, List, ◌∷◌, [], ◌⊎◌, inl, inr}
use shelter_server.SocketSetup.{
  af_inet, sock_stream, any_at, Call, socket, bind, getsockname, close, Made, made, exited, Setup,
  required, or_exit, attempted, ◌>>=◌, ◌>>◌, return, bind_made,
}
use shelter_server.SocketSetup.Endpoints.{Endpoint, endpoint, same_fd}

module _ (answer : List Call → Call → Option ℕ) where
  unfoldable pub get_selected_port : ℕ → Setup ℕ
  get_selected_port fd = required answer (getsockname fd)

  -- A failure of bind closes the socket.
  unfoldable pub or_close : ℕ → Option ℕ → Setup (Unit {0})
  or_close fd none calls = exited (close fd ∷ calls)
  or_close fd (some n) calls = made tt calls

  unfoldable pub bind_any : ℕ → Setup (Unit {0})
  unfolding or_close
  bind_any fd calls = or_close fd (answer calls (bind fd (any_at 0))) (bind fd (any_at 0) ∷ calls)

  unfoldable pub get_available_port : Setup ℕ
  unfolding get_selected_port bind_any
  get_available_port = required answer (socket af_inet sock_stream) >>= λ fd. bind_any fd >>= λ _.
      get_selected_port fd >>= λ port. attempted answer (close fd) >> return port

  -- Some call failed.
  abbrev pub SomeFailed : List Call → Type 0
  SomeFailed [] = ⊥
  SomeFailed (c ∷ calls) = (answer calls c ≡ none) ⊎ SomeFailed calls

  -- A TCP socket for a port of the system's choice.
  abbrev pub unused : Endpoint
  unused = record {
    domain = af_inet;
    kind = sock_stream;
    address = some (any_at 0);
    backlog = none;
  }

  -- Getsockname gave this port for such a socket of the descriptor.
  abbrev pub Reported : ℕ → ℕ → List Call → Type 0
  Reported fd port [] = ⊥
  Reported fd port (c ∷ calls) =
      ((c ≡ getsockname fd)
        × (answer calls c ≡ some port)
        × (endpoint answer fd calls ≡ some unused))
      ⊎ Reported fd port calls

  abbrev pub Assigns : Made ℕ → Type 0
  Assigns (made port calls) = (fd : ℕ) × Reported fd port calls × (endpoint answer fd calls ≡ none)
  Assigns (exited calls) = SomeFailed calls

  module _ (closes : (calls : List Call) (fd : ℕ) → answer calls (close fd) ≡ some 0) where
    selected :
        (fd : ℕ) (calls : List Call) (o : Option ℕ)
        → answer calls (getsockname fd) ≡ o
        → endpoint answer fd calls ≡ some unused
        → Assigns (
            bind_made
              (or_exit answer o (getsockname fd ∷ calls))
              (λ port. attempted answer (close fd) >> return port))
    selected fd calls none h e = inl h
    selected fd calls (some port) h e =
        (fd, inr (inl (refl, h, e)), rw (closes, same_fd answer fd) refl)

    bound_any :
        (fd : ℕ) (calls : List Call) (o : Option ℕ)
        → answer calls (bind fd (any_at 0)) ≡ o
        → endpoint answer fd calls ≡ some (record unused { address = none })
        → Assigns (
            bind_made
              (or_close fd o (bind fd (any_at 0) ∷ calls))
              (λ _. get_selected_port fd >>= λ port. attempted answer (close fd) >> return port))
    unfolding or_close get_selected_port
    bound_any fd calls none h e = inr (inl h)
    bound_any fd calls (some n) h e = selected fd _ _ refl (rw (h, same_fd answer fd, e) refl)

    opened :
        (calls : List Call) (o : Option ℕ)
        → answer calls (socket af_inet sock_stream) ≡ o
        → Assigns (
            bind_made (or_exit answer o (socket af_inet sock_stream ∷ calls)) (λ fd.
              bind_any fd >>= λ _.
              get_selected_port fd >>= λ port. attempted answer (close fd) >> return port))
    unfolding bind_any
    opened calls none h = inl h
    opened calls (some fd) h = bound_any fd _ _ refl (rw (h, same_fd answer fd) refl)

    -- Where closing never fails, a port that get_available_port returns is one that the system
    -- reported for a TCP socket of the function's own, bound to a port of the system's choice, and
    -- that socket is closed on return; if it ends the process instead, some call has failed.
    get_available_port-Assigns : (calls : List Call) → Assigns (get_available_port calls)
    unfolding get_available_port
    get_available_port-Assigns calls = opened calls _ refl
