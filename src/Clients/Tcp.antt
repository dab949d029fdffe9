-- ===== src/Clients/Tcp.antt =====
-- The list of connected TCP clients: TCPClientList of include/server.h, and the array part of
-- add_tcp_client and remove_tcp_client of src/server/server.c.
-- A file descriptor is the number that a call returned; the value -1 of a failure is `none`.
use shelter_server.Prelude.{
  ℕ, ◌+◌, ◌-◌, ◌≤◌, ◌<◌, ◌≡◌, sym, ◌∙◌, Bool, true, List, [], ◌∷◌, ◌++◌, Option, none, some, arith,
  ltb, ◌==◌, set, take, replicate, length, length-set, length-take, take-set_end, ltb→lt,
}
use shelter_server.Clients.Array.{
  shift_left, find_index, erase_first, erase_at, take-shift_left_pred, length-shift_left,
  find_index-Found, Found,
}

abbrev pub max_clients : ℕ
max_clients = 5

pub record TcpClientList : Type 0 where
  pub client_fds : List ℕ
  pub num_clients : ℕ

-- A global variable starts as zeros.
abbrev pub no_clients : TcpClientList
no_clients = record { client_fds = replicate max_clients 0; num_clients = 0 }

-- num_clients < MAX_CLIENTS
abbrev pub has_room : TcpClientList → Bool
has_room l = ltb l.num_clients max_clients

-- client_fds[num_clients++] = client_fd
unfoldable pub append_fd : ℕ → TcpClientList → TcpClientList
append_fd fd l = record {
  client_fds = set l.client_fds l.num_clients fd;
  num_clients = l.num_clients + 1;
}

unfoldable pub remove_at : ℕ → TcpClientList → TcpClientList
remove_at i l = record {
  client_fds = shift_left 0 (l.num_clients - 1 - i) i l.client_fds;
  num_clients = l.num_clients - 1;
}

-- The index at which the loop finds the descriptor, if it does.
unfoldable pub search_fd : ℕ → TcpClientList → Option ℕ
unfolding find_index
search_fd fd l = find_index 0 (λ x. x == fd) l.num_clients 0 l.client_fds

unfoldable pub remove_found : Option ℕ → TcpClientList → TcpClientList
unfolding remove_at shift_left
remove_found none l = l
remove_found (some i) l = remove_at i l

-- The effect of remove_tcp_client on the list.
unfoldable pub remove_fd : ℕ → TcpClientList → TcpClientList
unfolding search_fd remove_found
remove_fd fd l = remove_found (search_fd fd l) l

-- The clients of the list, in order.
unfoldable pub clients : TcpClientList → List ℕ
clients l = take l.num_clients l.client_fds

-- The array has its size, and the counter stays within it.
pub record IsValid (l : TcpClientList) : Type 0 where
  pub size : length l.client_fds ≡ max_clients
  pub within : l.num_clients ≤ max_clients

pub clients-append_fd :
    (fd : ℕ) (l : TcpClientList)
    → IsValid l
    → has_room l ≡ true
    → clients (append_fd fd l) ≡ clients l ++ fd ∷ []
unfolding clients append_fd
clients-append_fd fd l v room =
    take-set_end l.client_fds l.num_clients fd (omega (arith, ltb→lt l.num_clients max_clients))

pub append_fd-IsValid :
    (fd : ℕ) (l : TcpClientList) → IsValid l → has_room l ≡ true → IsValid (append_fd fd l)
unfolding append_fd
append_fd-IsValid fd l v room = ground (arith, length-set l.client_fds l.num_clients fd)

pub remove_at-IsValid : (i : ℕ) (l : TcpClientList) → IsValid l → IsValid (remove_at i l)
unfolding remove_at
remove_at-IsValid i l v = omega (arith, length-shift_left 0 (l.num_clients - 1 - i) i l.client_fds)

pub clients-remove_at :
    (i : ℕ) (l : TcpClientList)
    → IsValid l
    → i < l.num_clients
    → clients (remove_at i l) ≡ erase_at i (clients l)
unfolding clients remove_at
clients-remove_at i l v h = take-shift_left_pred 0 i l.num_clients l.client_fds h (omega arith)

pub remove_found-IsValid :
    (o : Option ℕ) (l : TcpClientList) → IsValid l → IsValid (remove_found o l)
unfolding remove_found
remove_found-IsValid none l v = v
remove_found-IsValid (some i) l v = remove_at-IsValid i l v

pub remove_fd-IsValid : (fd : ℕ) (l : TcpClientList) → IsValid l → IsValid (remove_fd fd l)
unfolding remove_fd
remove_fd-IsValid fd l v = remove_found-IsValid (search_fd fd l) l v

clients-remove_found :
    (p : ℕ → Bool) (l : TcpClientList) (o : Option ℕ)
    → IsValid l
    → Found 0 p (clients l) o
    → clients (remove_found o l) ≡ erase_first p (clients l)
unfolding remove_found
clients-remove_found p l none v f = sym f.0
clients-remove_found p l (some i) v f = clients-remove_at i l v (in_clients f.0) ∙ f.1
  where
    in_clients : i < length (clients l) → i < l.num_clients
    in_clients h = unfold clients in omega (arith, length-take l.num_clients l.client_fds)

-- What remove_tcp_client leaves: the clients without the first one that has the descriptor.
pub clients-remove_fd :
    (fd : ℕ) (l : TcpClientList)
    → IsValid l
    → clients (remove_fd fd l) ≡ erase_first (λ x. x == fd) (clients l)
unfolding remove_fd
clients-remove_fd fd l v =
    clients-remove_found (λ x. x == fd) l (search_fd fd l) v
      (unfold search_fd clients in
        find_index-Found 0 (λ x. x == fd) l.num_clients l.client_fds (omega arith))
