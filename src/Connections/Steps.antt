-- ===== src/Connections/Steps.antt =====
-- What accept, FD_SET, add_tcp_client, close with FD_CLR, and remove_tcp_client do to the view of the
-- connections.
use shelter_server.Prelude.{
  ℕ, ◌+◌, ◌≤◌, ◌≡◌, refl, sym, ap, ◌∙◌, Bool, true, false, List, [], ◌∷◌, ◌++◌, ◌==◌, arith,
  Bool-cases, inl, inr, length, length-take,
}
use shelter_server.Clients.Array.{erase_first}
use shelter_server.Clients.Tcp
use shelter_server.Clients.Tcp.{
  TcpClientList, clients, max_clients, append_fd, clients-append_fd, append_fd-IsValid,
}
use shelter_server.TcpHandler.{has, fd_clear}
use shelter_server.EventLoop.{larger}
use shelter_server.Connections.{View, Matches}
use shelter_server.Connections.Sets.{
  Within, has-append, has-fd_clear, fd_clear-append, fd_clear_absent, fd_clear_head,
  Distinct-append, length-Within, has-erase, Distinct-erase,
}

-- Of the descriptors that select reported, those from `i` on are watched still.
abbrev pub Later : List ℕ → ℕ → List ℕ → Type 0
Later read i fds = (n : ℕ) → i ≤ n → has n read ≡ true → has n fds ≡ true

contrary : {A : Type 0} (b : Bool) → b ≡ false → b ≡ true → A
contrary true h k = absurd cc
contrary false h k = absurd cc

Within-false : (n : ℕ) (xs ys : List ℕ) → Within xs ys → has n ys ≡ false → has n xs ≡ false
Within-false n xs ys w h = elim (Bool-cases (has n xs)) [
  | inl e ↦ contrary (has n ys) h (w n e)
  | inr e ↦ e
]

full_length :
    (l : TcpClientList) → Tcp.IsValid l → Tcp.has_room l ≡ false → max_clients ≤ length (clients l)
unfolding clients
full_length l v full = ground (arith, length-take l.num_clients l.client_fds, v.size, v.within)

module _ (sockets read : List ℕ) (i : ℕ) where
  abbrev pub Rest : View → Type 0
  Rest v = Matches sockets [] v × Later read i v.master_fds

  -- A descriptor was accepted, and is not yet in the list nor watched.
  abbrev pub New : ℕ → View → Type 0
  New fd v =
      Matches sockets (fd ∷ []) v
      × Later read i v.master_fds
      × (has fd (clients v.tcp_clients) ≡ false)
      × (has fd v.master_fds ≡ false)
      × (has fd sockets ≡ false)

  abbrev pub Added : ℕ → View → Type 0
  Added fd v =
      Matches sockets (fd ∷ []) v
      × Later read i v.master_fds
      × (v.crowded ≡ false → has fd (clients v.tcp_clients) ≡ true)

  -- The same for a TCP connection, which is then one of five at most.
  abbrev pub NewTcp : ℕ → View → Type 0
  NewTcp fd v = New fd v × (v.crowded ≡ false → length v.open_now ≤ max_clients)

  pub open_step :
      (fd : ℕ) (v : View)
      → Rest v
      → has fd v.open_now ≡ false
      → has fd sockets ≡ false
      → (crowded : Bool) → (crowded ≡ false → v.crowded ≡ false)
      → New fd (record v { open_now = fd ∷ v.open_now; crowded = crowded })
  open_step fd v (m, later) new apart crowded before = (
    record {
      watched = ap (◌∷◌ fd) m.watched;
      below = m.below;
      listed = λ n h. ground (arith, m.listed n h);
      distinct = m.distinct;
      valid = m.valid;
      complete = λ e n h. ground (arith, m.complete (before e) n);
    },
    later,
    Within-false fd _ _ m.listed new,
    ap (has fd) m.watched ∙ rw (has-append fd v.open_now sockets, new, apart) refl,
    apart,
  )

  pub close_step :
      (fd : ℕ) (v : View) → New fd v → Rest (record v { open_now = fd_clear fd v.open_now })
  close_step fd v (m, later, unlisted, unwatched, apart) = (
    record {
      watched =
          sym (fd_clear_head fd v.master_fds unwatched)
          ∙ ap (fd_clear fd) m.watched
          ∙ fd_clear-append fd v.open_now sockets
          ∙ ap (◌++◌ (fd_clear fd v.open_now)) (fd_clear_absent fd sockets apart);
      below = m.below;
      listed = λ n h. ground (arith, m.listed n h, has-fd_clear n fd v.open_now);
      distinct = m.distinct;
      valid = m.valid;
      complete = λ e n h. ground (arith, m.complete e n, has-fd_clear n fd v.open_now);
    },
    later,
  )

  in_open : (fd : ℕ) (v : View) → New fd v → has fd v.open_now ≡ true
  in_open fd v (m, later, unlisted, unwatched, apart) =
      ground (arith, ap (has fd) m.watched, has-append fd v.open_now sockets, apart)

  pub add_step :
      (fd : ℕ) (v : View)
      → New fd v
      → Tcp.has_room v.tcp_clients ≡ true
      → Added fd (record v { tcp_clients = append_fd fd v.tcp_clients })
  add_step fd v (m, later, unlisted, unwatched, apart) room =
      let e : clients (append_fd fd v.tcp_clients) ≡ clients v.tcp_clients ++ fd ∷ [] =
        clients-append_fd fd v.tcp_clients m.valid room in
      let opened : has fd v.open_now ≡ true = in_open fd v (m, later, unlisted, unwatched, apart) in
      (
        record {
          watched = m.watched;
          below = m.below;
          listed = rw e (λ n h.
              ground (arith, m.listed n, has-append n (clients v.tcp_clients) (fd ∷ []), opened));
          distinct = rw e (Distinct-append fd (clients v.tcp_clients) m.distinct unlisted);
          valid = append_fd-IsValid fd v.tcp_clients m.valid room;
          complete = rw e (λ few n h.
              ground (arith, m.complete few n h, has-append n (clients v.tcp_clients) (fd ∷ [])));
        },
        later,
        rw e (λ few. ground (arith, has-append fd (clients v.tcp_clients) (fd ∷ []))),
      )

  -- A list without room has five open clients beside the new one.
  pub full_step :
      (fd : ℕ) (v : View) → NewTcp fd v → Tcp.has_room v.tcp_clients ≡ false → Added fd v
  full_step fd v (new, few) full =
      let (m, later, unlisted, unwatched, apart) = new in
      let open_fd : has fd v.open_now ≡ true = in_open fd v new in
      let five : max_clients ≤ length (clients v.tcp_clients) =
        full_length v.tcp_clients m.valid full in
      let six : length (fd ∷ clients v.tcp_clients) ≤ length v.open_now =
        length-Within (fd ∷ clients v.tcp_clients) v.open_now (unlisted, m.distinct)
          (λ n h. ground (arith, m.listed n, open_fd)) in
      (m, later, λ e. absurd (omega (arith, few e, five, six)))

  pub watch_step :
      (fd : ℕ) (v : View)
      → Added fd v
      → Rest (record v { master_fds = fd ∷ v.master_fds; max_fd = larger fd v.max_fd })
  watch_step fd v (m, later, added) = (
    record {
      watched = m.watched;
      below = λ n h. ground (arith, m.below n);
      listed = m.listed;
      distinct = m.distinct;
      valid = m.valid;
      complete = λ e n h. ground (arith, m.complete e n h, added e);
    },
    λ n le h. ground (arith, later n le h),
  )

-- The client's descriptor is closed, FD_CLR, and out of the list.
pub forget_step :
    (sockets read : List ℕ) (fd : ℕ) (v : View) (left : TcpClientList)
    → Rest sockets read fd v
    → has fd sockets ≡ false
    → Tcp.IsValid left
    → clients left ≡ erase_first (λ x. x == fd) (clients v.tcp_clients)
    → Rest sockets read (fd + 1) (record v {
      master_fds = fd_clear fd v.master_fds;
      tcp_clients = left;
      open_now = fd_clear fd v.open_now;
    })
forget_step sockets read fd v left (m, later) apart valid e = (
  record {
    watched =
        ap (fd_clear fd) m.watched
        ∙ fd_clear-append fd v.open_now sockets
        ∙ ap (◌++◌ (fd_clear fd v.open_now)) (fd_clear_absent fd sockets apart);
    below = λ n h. ground (arith, m.below n, has-fd_clear n fd v.master_fds);
    listed = rw e (λ n h. ground (
      arith,
      m.listed n,
      has-erase n fd (clients v.tcp_clients) m.distinct,
      has-fd_clear n fd v.open_now,
    ));
    distinct = rw e (Distinct-erase fd (clients v.tcp_clients) m.distinct);
    valid = valid;
    complete = rw e (λ few n h. ground (
      arith,
      m.complete few n,
      has-erase n fd (clients v.tcp_clients) m.distinct,
      has-fd_clear n fd v.open_now,
    ));
  },
  λ n le h. ground (arith, later n (omega arith) h, has-fd_clear n fd v.master_fds),
)
