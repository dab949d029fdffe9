-- ===== src/Tests.antt =====
-- Concrete data for the tests: a JSON library, addresses, a host, and states of the server.
pub mod Requests
pub mod Parts
pub mod Sensors
pub mod Clients
pub mod Processes
pub mod Connections
pub mod Mains
use shelter_server.Prelude.{
  ℕ, ℤ, pos, negsuc, Bytes, text, bytes_eq, Bool, true, false, Option, none, some, ◌++◌, List, [],
  ◌∷◌, ◌==◌, if◌then◌else◌,
}
use shelter_server.Json.{CJson}
use shelter_server.Json.Tree.{Tree, node, object, number, string, end, field, trees}
use shelter_server.Clients.Udp.{SockAddr, inet, UdpClientData}
use shelter_server.Supplies.{FoodSupply, MedicineSupply}
use shelter_server.Server.{Server, Host}
use shelter_server.Net.{Ntop}
use shelter_server.EventLoop.{Sockets, Answers, Ready, boot}
use shelter_server.UdpHandler.{Datagram}

abbrev pub word_tree : Bytes → Tree
word_tree s = node (string s) end

abbrev pub status_tree : Tree
status_tree = node object (
    field (text "message") (word_tree (text "status"))
      (field (text "hostname") (word_tree (text "fedora")) end))

abbrev pub water_tree : Tree
water_tree = node object (field (text "water") (node (number (negsuc 4)) end) end)

abbrev pub update_tree : Tree
update_tree =
    node object
      (field (text "message") (word_tree (text "update")) (field (text "food") water_tree end))

abbrev pub number_tree : Tree
number_tree = node object (field (text "message") (node (number (pos 7)) end) end)

-- Three requests, and a reader for them.
abbrev pub status_text : Bytes
status_text = text "{'message':'status','hostname':'fedora'}"

abbrev pub update_text : Bytes
update_text = text "{'message':'update','food':{'water':-5}}"

abbrev pub number_text : Bytes
number_text = text "{'message':7}"

abbrev pub read : Bytes → Option Tree
read s =
    if bytes_eq s status_text
    then some status_tree
    else if bytes_eq s update_text
    then some update_tree
    else if bytes_eq s number_text
    then some number_tree
    else none

abbrev pub json : CJson
json = trees read (λ t. text "{}")

unfoldable pub update_request : json.Json
unfolding trees
update_request = update_tree

abbrev pub net : Ntop
net = record { ntop4 = λ a. text "10.0.0.1"; ntop6 = λ a. text "::1" }

abbrev pub addr : SockAddr
addr = record { family = inet; port = 4000; word = 167772161; addr6 = 0 }

abbrev pub other_addr : SockAddr
other_addr = record { family = inet; port = 4001; word = 167772161; addr6 = 0 }

abbrev pub udp_client : UdpClientData
udp_client = record { sockfd = 4; client_addr = addr; addr_len = 16 }

abbrev pub other_client : UdpClientData
other_client = record { sockfd = 4; client_addr = other_addr; addr_len = 16 }

abbrev pub host : Host
host = record {
  home = some (text "/root");
  log_dir_exists = true;
  can_mkdir = true;
  can_open_log = true;
  clock = text "2024-05-01 10:00:00";
  peer = λ fd. some addr;
  alloc = λ i. true;
}

abbrev pub sockets : Sockets
sockets = record { tcp_socket_fd = 3; udp_socket_fd = 4; unix_socket_fd = 5; fifo_fd = 6 }

abbrev pub datagram : Bytes → Datagram
datagram content = record { content = content; sender = addr; sender_len = 16 }

-- One new TCP connection, as descriptor 7.
abbrev pub answers : Answers
answers = record {
  accepted_tcp = some (7, addr);
  accepted_unix = some 8;
  received = some update_text;
  datagram = some (datagram status_text);
  fifo = some (some (text "NORTH, ALERT, 38.5"));
}

abbrev pub all_ready : Ready
all_ready = λ fd. some answers

abbrev pub connection : Ready
connection = λ fd. if fd == 3 then some answers else none

abbrev pub food : FoodSupply
food = record { meat = pos 10; vegetables = pos 20; fruits = pos 30; water = pos 40 }

abbrev pub medicine : MedicineSupply
medicine = record { antibiotics = pos 1; analgesics = pos 2; bandages = pos 3 }

-- A server with two TCP clients, one UDP client and both stocks.
abbrev pub server : Server
server = record (boot host) {
  food = some food;
  medicine = some medicine;
  max_fd = 8;
  tcp_clients = record { client_fds = 7 ∷ 8 ∷ 0 ∷ 0 ∷ 0 ∷ []; num_clients = 2 };
  udp_clients = record {
    clients = udp_client ∷ udp_client ∷ udp_client ∷ udp_client ∷ udp_client ∷ [];
    num_clients = 1;
  };
}
