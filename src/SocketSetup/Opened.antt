-- ===== src/SocketSetup/Opened.antt =====
-- The sockets that start_server of src/server/server.c sets up, one after another.
use shelter_server.Prelude.{
  Bool, ℕ, ℤ, ◌≡◌, refl, sym, ap, ◌∙◌, take, true, false, Option, none, some, List, [], ◌∷◌, ◌==◌,
  arith, Bool-cases, inl, inr,
}
use shelter_server.UdpClient.Connection.{uint16}
use shelter_server.SocketSetup.{
  Call, af_inet6, af_unix, sock_stream, sock_dgram, any_at, at_path, so_reuseport, socket,
  setsockopt, bind, getsockname, inet_ntop, listen, close, unlink, open_fifo, Made, made, exited,
  Setup, required, return, bind_made, ◌>>=◌, set_tcp_socket, set_udp_socket, set_udp_family_socket,
  set_unix_socket,
}
use shelter_server.SocketSetup.Endpoints.{
  Endpoint, endpoint, tcp_endpoint, udp_endpoint, unix_endpoint, SetsUp, sockets-SetsUp,
}
use shelter_server.EventLoop.{Sockets}
use shelter_server.SocketSetup.Launch.{unix_path, fifo_path, cleanup_unix_socket, server_sockets}
use shelter_server.Connections.Sets.{Distinct}
use shelter_server.Connections.Loop.{descriptors}

module _ (answer : List Call → Call → Option ℕ) where
  -- A descriptor that socket or open returned was not that of a socket in use.
  abbrev pub IsNew : Call → List Call → Type 0
  IsNew (socket domain kind) calls =
      (fd : ℕ) → answer calls (socket domain kind) ≡ some fd → endpoint answer fd calls ≡ none
  IsNew (setsockopt fd name value) calls = Unit
  IsNew (bind fd address) calls = Unit
  IsNew (getsockname fd) calls = Unit
  IsNew inet_ntop calls = Unit
  IsNew (listen fd backlog) calls = Unit
  IsNew (close fd) calls = Unit
  IsNew (unlink path) calls = Unit
  IsNew (open_fifo path) calls =
      (fd : ℕ) → answer calls (open_fifo path) ≡ some fd → endpoint answer fd calls ≡ none

  abbrev pub AllNew : List Call → Type 0
  AllNew [] = Unit
  AllNew (c ∷ calls) = IsNew c calls × AllNew calls

  abbrev pub On : {A : Type 0} → (A → List Call → Type 0) → Made A → Type 0
  On P (made a calls) = P a calls
  On P (exited calls) = Unit

  On-required :
      {A : Type 0} (P : A → List Call → Type 0) (c : Call) (k : ℕ → Setup A) (calls : List Call)
      (o : Option ℕ)
      → answer calls c ≡ o
      → ((n : ℕ) → answer calls c ≡ some n → On P (k n (c ∷ calls)))
      → On P ((required answer c >>= k) calls)
  On-required P c k calls none h next = rw h tt
  On-required P c k calls (some n) h next = rw h (next n h)

  On-bind :
      {A B : Type 0} (P : A → List Call → Type 0) (Q : B → List Call → Type 0) (o : Made A)
      (k : A → Setup B)
      → On P o
      → ((a : A) (calls : List Call) → P a calls → On Q (k a calls))
      → On Q (bind_made o k)
  On-bind P Q (made a calls) k h next = next a calls h
  On-bind P Q (exited calls) k h next = tt

  nothing : {e : Endpoint} → none ≡ some e → ⊥
  nothing h = cc

  -- Two descriptors of which one is that of a socket and the other is not.
  differs :
      (fd other : ℕ) (e : Endpoint) (calls : List Call)
      → endpoint answer other calls ≡ some e
      → endpoint answer fd calls ≡ none
      → (fd == other) ≡ false
  differs fd other e calls used new = elim (Bool-cases (fd == other)) [
    | inl same ↦
        let e' : fd ≡ other = ground arith in
        absurd (nothing (sym new ∙ ap (λ n. endpoint answer n calls) e' ∙ used))
    | inr differ ↦ differ
  ]

  -- The socket `other` is as it was, and another one than the new one, and K holds still.
  abbrev Beside : Type 0 → ℕ → Endpoint → ℕ → List Call → Type 0
  Beside K other e fd calls =
      AllNew calls → (endpoint answer other calls ≡ some e) × ((fd == other) ≡ false) × K

  udp-Beside :
      (K : Type 0) (other : ℕ) (e : Endpoint) (port : ℤ) (calls : List Call)
      → (AllNew calls → (endpoint answer other calls ≡ some e) × K)
      → On (Beside K other e) (set_udp_socket answer port calls)
  unfolding set_udp_socket set_udp_family_socket
  udp-Beside K other e port calls used =
      On-required (Beside K other e) (socket af_inet6 sock_dgram) _ calls _ refl λ fd h1.
        On-required (Beside K other e) (setsockopt fd so_reuseport false) _ _ _ refl λ a h2.
          On-required (Beside K other e) (bind fd (any_at (uint16 port))) _ _ _ refl λ b h3 new.
            let apart : (fd == other) ≡ false =
              differs fd other e calls (used new.1.1.1).0 (new.1.1.0 fd h1) in
            (rw (h3, h2, h1, apart) (used new.1.1.1).0, apart, (used new.1.1.1).1)

  unix-Beside :
      (K : Type 0) (other : ℕ) (e : Endpoint) (calls : List Call)
      → (AllNew calls → (endpoint answer other calls ≡ some e) × K)
      → On (Beside K other e) (set_unix_socket answer unix_path 1 true calls)
  unfolding set_unix_socket
  unix-Beside K other e calls used =
      On-required (Beside K other e) (socket af_unix sock_stream) _ calls _ refl λ fd h1.
        On-required (Beside K other e) (bind fd (at_path (take 107 unix_path))) _ _ _ refl λ a h2.
          On-required (Beside K other e) (listen fd 1) _ _ _ refl λ b h3 new.
            let apart : (fd == other) ≡ false =
              differs fd other e calls (used new.1.1.1).0 (new.1.1.0 fd h1) in
            (rw (h3, h2, h1, apart) (used new.1.1.1).0, apart, (used new.1.1.1).1)

  On-SetsUp :
      (ignored : Call → Bool) (before : List Call) (e : Endpoint) (o : Made ℕ)
      → SetsUp answer ignored before e o
      → On (λ fd calls. endpoint answer fd calls ≡ some e) o
  On-SetsUp ignored before e (made fd calls) h = h.0
  On-SetsUp ignored before e (exited calls) h = tt

  On-both :
      {A : Type 0} (P Q : A → List Call → Type 0) (o : Made A)
      → On P o
      → On Q o
      → On (λ a calls. P a calls × Q a calls) o
  On-both P Q (made a calls) h k = (h, k)
  On-both P Q (exited calls) h k = tt

  module _ (tcp_port udp_port : ℤ) where
    abbrev pub T : Endpoint
    T = tcp_endpoint af_inet6 tcp_port 5

    abbrev pub U : Endpoint
    U = udp_endpoint af_inet6 udp_port

    abbrev pub X : Endpoint
    X = unix_endpoint unix_path 1 true

    abbrev pub IsSetUp : Sockets → List Call → Type 0
    IsSetUp s calls =
        (endpoint answer s.tcp_socket_fd calls ≡ some T)
        × (endpoint answer s.udp_socket_fd calls ≡ some U)
        × (endpoint answer s.unix_socket_fd calls ≡ some X)
        × Distinct (descriptors s)

    abbrev the_sockets : ℕ → ℕ → ℕ → ℕ → Sockets
    the_sockets tcp udp unix fifo = record {
      tcp_socket_fd = tcp;
      udp_socket_fd = udp;
      unix_socket_fd = unix;
      fifo_fd = fifo;
    }

    abbrev pub Ready : Sockets → List Call → Type 0
    Ready s calls = AllNew calls → IsSetUp s calls

    with_fifo :
        (tcp udp unix : ℕ) (calls : List Call)
        → Beside ((udp == tcp) ≡ false) tcp T unix calls
        → Beside Unit udp U unix calls
        → endpoint answer unix calls ≡ some X
        → On Ready (
            (required answer (open_fifo fifo_path) >>= λ fifo.
            return (the_sockets tcp udp unix fifo))
              calls)
    with_fifo tcp udp unix calls b d is_unix =
        On-required Ready (open_fifo fifo_path) _ calls _ refl λ fifo h (new, older).
          let is_tcp : endpoint answer tcp calls ≡ some T = (b older).0 in
          let is_udp : endpoint answer udp calls ≡ some U = (d older).0 in
          let tcp_apart : (fifo == tcp) ≡ false = differs fifo tcp T calls is_tcp (new fifo h) in
          let udp_apart : (fifo == udp) ≡ false = differs fifo udp U calls is_udp (new fifo h) in
          let unix_apart : (fifo == unix) ≡ false =
            differs fifo unix X calls is_unix (new fifo h) in
          (
            rw h is_tcp,
            rw h is_udp,
            rw h is_unix,
            ground (arith, (b older).1, (b older).2, (d older).1),
          )

    with_unix :
        (tcp udp : ℕ) (calls : List Call)
        → Beside Unit tcp T udp calls
        → endpoint answer udp calls ≡ some U
        → On Ready (
            (set_unix_socket answer unix_path 1 true >>= λ unix.
            required answer (open_fifo fifo_path) >>= λ fifo.
            return (the_sockets tcp udp unix fifo))
              calls)
    with_unix tcp udp calls a is_udp =
        let K : Type 0 = (udp == tcp) ≡ false in
        let o : Made ℕ = set_unix_socket answer unix_path 1 true calls in
        let IsUnix : ℕ → List Call → Type 0 = λ unix calls. endpoint answer unix calls ≡ some X in
        let Others : ℕ → List Call → Type 0 =
          λ unix calls. Beside K tcp T unix calls × Beside Unit udp U unix calls in
        On-bind (λ unix calls. Others unix calls × IsUnix unix calls) Ready o _
          (On-both Others IsUnix o
            (On-both (Beside K tcp T) (Beside Unit udp U) o
              (unix-Beside K tcp T calls (λ new. ((a new).0, (a new).1)))
              (unix-Beside Unit udp U calls (λ new. (is_udp, tt))))
            (On-SetsUp _ _ X o (sockets-SetsUp answer tcp_port 1 unix_path true calls).4))
          (λ unix calls' p. with_fifo tcp udp unix calls' p.0.0 p.0.1 p.1)

    pub server_sockets-Ready : On Ready (server_sockets answer tcp_port udp_port [])
    unfolding server_sockets cleanup_unix_socket
    server_sockets-Ready =
        let IsTcp : ℕ → List Call → Type 0 = λ tcp calls. endpoint answer tcp calls ≡ some T in
        let IsUdp : ℕ → List Call → Type 0 = λ udp calls. endpoint answer udp calls ≡ some U in
        On-bind IsTcp Ready (set_tcp_socket answer tcp_port 5 _) _
          (On-SetsUp _ _ T _ (sockets-SetsUp answer tcp_port 5 unix_path true _).5)
          (λ tcp calls1 is_tcp.
            On-bind (λ udp calls. Beside Unit tcp T udp calls × IsUdp udp calls) Ready
              (set_udp_socket answer udp_port calls1) _
              (On-both (Beside Unit tcp T) IsUdp _
                (udp-Beside Unit tcp T udp_port calls1 (λ new. (is_tcp, tt)))
                (On-SetsUp _ _ U _ (sockets-SetsUp answer udp_port 5 unix_path true calls1).6))
              (λ udp calls2 p. with_unix tcp udp calls2 p.0 p.1))
