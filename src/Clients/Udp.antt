-- ===== src/Clients/Udp.antt =====
-- The list of known UDP clients: UDPClientData and UDPClientList of include/server.h, and the array
-- part of add_udp_client and remove_udp_client of src/server/server.c.
-- The field `family` of UDPClientData is never written or read by the program.
use shelter_server.Prelude.{
  ℕ, ◌+◌, ◌-◌, ◌≤◌, ◌≡◌, Bool, true, false, ◌&&◌, List, [], ◌∷◌, ◌++◌, Option, none, some, arith,
  ltb, ◌==◌, set, take, replicate, length, length-set, take-set_end, ltb→lt,
}
use shelter_server.Clients.Array.{shift_left, find_index, any, find_index-Found, Found}
use shelter_server.Clients.Tcp.{max_clients}

pub data Family : Type 0 where
  inet inet6 other : Family

-- struct sockaddr_storage, by its layout: sin_port and sin6_port lie at byte 2, sin_addr and
-- sin6_flowinfo at byte 4, sin6_addr at byte 8.
pub record SockAddr : Type 0 where
  pub family : Family
  pub port : ℕ
  pub word : ℕ
  pub addr6 : ℕ

pub record UdpClientData : Type 0 where
  pub sockfd : ℕ
  pub client_addr : SockAddr
  pub addr_len : ℕ

pub record UdpClientList : Type 0 where
  pub clients : List UdpClientData
  pub num_clients : ℕ

abbrev pub zero_addr : SockAddr
zero_addr = record { family = other; port = 0; word = 0; addr6 = 0 }

abbrev pub zero_client : UdpClientData
zero_client = record { sockfd = 0; client_addr = zero_addr; addr_len = 0 }

abbrev pub no_clients : UdpClientList
no_clients = record { clients = replicate max_clients zero_client; num_clients = 0 }

-- The test of add_udp_client, which reads both addresses as struct sockaddr_in.
abbrev pub same_client : UdpClientData → UdpClientData → Bool
same_client new existing =
    existing.client_addr.word == new.client_addr.word
    && existing.client_addr.port == new.client_addr.port

-- The loop that looks for the client among those known.
unfoldable pub find_known : UdpClientData → UdpClientList → Option ℕ
unfolding find_index
find_known new l = find_index zero_client (same_client new) l.num_clients 0 l.clients

abbrev pub has_room : UdpClientList → Bool
has_room l = ltb l.num_clients max_clients

-- clients[num_clients++] = client
unfoldable pub append_client : UdpClientData → UdpClientList → UdpClientList
append_client new l = record {
  clients = set l.clients l.num_clients new;
  num_clients = l.num_clients + 1;
}

unfoldable pub remove_found : Option ℕ → UdpClientList → UdpClientList
unfolding shift_left
remove_found none l = l
remove_found (some i) l = record {
  clients = shift_left zero_client (l.num_clients - 1 - i) i l.clients;
  num_clients = l.num_clients - 1;
}

unfoldable pub remove_udp_client : ℕ → UdpClientList → UdpClientList
unfolding remove_found find_index
remove_udp_client sockfd l =
    remove_found
      (find_index zero_client (λ known. known.sockfd == sockfd) l.num_clients 0 l.clients) l

-- The clients of the list, in order.
unfoldable pub known_clients : UdpClientList → List UdpClientData
known_clients l = take l.num_clients l.clients

-- No client of the list is taken for another by the test.
abbrev pub AllDistinct : List UdpClientData → Type 0
AllDistinct [] = Unit
AllDistinct (x ∷ xs) = (any (same_client x) xs ≡ false) × AllDistinct xs

pub record IsValid (l : UdpClientList) : Type 0 where
  pub size : length l.clients ≡ max_clients
  pub within : l.num_clients ≤ max_clients
  pub distinct : AllDistinct (known_clients l)

any-append :
    (p : UdpClientData → Bool) (xs : List UdpClientData) (y : UdpClientData)
    → any p xs ≡ false
    → p y ≡ false
    → any p (xs ++ y ∷ []) ≡ false
any-append p [] y h k = ground arith
any-append p (x ∷ xs) y h k = ground (arith, any-append p xs y)

AllDistinct-append :
    (xs : List UdpClientData) (y : UdpClientData)
    → AllDistinct xs
    → any (same_client y) xs ≡ false
    → AllDistinct (xs ++ y ∷ [])
AllDistinct-append [] y d h = ground arith
AllDistinct-append (x ∷ xs) y d h =
    (any-append (same_client x) xs y d.0 (ground arith), AllDistinct-append xs y d.1 (ground arith))

-- One more client behind those known, which it differs from.
pub known_clients-append_client :
    (new : UdpClientData) (l : UdpClientList)
    → IsValid l
    → has_room l ≡ true
    → known_clients (append_client new l) ≡ known_clients l ++ new ∷ []
unfolding known_clients append_client
known_clients-append_client new l v room =
    take-set_end l.clients l.num_clients new (omega (arith, ltb→lt l.num_clients max_clients))

-- The loop of add_udp_client finds nothing exactly when no known client is taken for the new one.
pub find_known-Found :
    (new : UdpClientData) (l : UdpClientList)
    → IsValid l
    → Found zero_client (same_client new) (known_clients l) (find_known new l)
unfolding find_known known_clients
find_known-Found new l v =
    find_index-Found zero_client (same_client new) l.num_clients l.clients (omega arith)

pub find_known-none :
    (new : UdpClientData) (l : UdpClientList)
    → IsValid l
    → find_known new l ≡ none
    → any (same_client new) (known_clients l) ≡ false
find_known-none new l v e = (rw e at (find_known-Found new l v)).1

pub append_client-IsValid :
    (new : UdpClientData) (l : UdpClientList)
    → IsValid l
    → has_room l ≡ true
    → find_known new l ≡ none
    → IsValid (append_client new l)
append_client-IsValid new l v room fresh = record {
  size = unfold append_client in omega (arith, v.size, length-set l.clients l.num_clients new);
  within = unfold append_client in omega (arith, ltb→lt l.num_clients max_clients);
  distinct =
      rw (known_clients-append_client new l v room)
        (AllDistinct-append (known_clients l) new v.distinct (find_known-none new l v fresh));
}
