-- ===== src/Net.antt =====
-- Addresses as text: the library call inet_ntop is a parameter. get_tcp_client_ip and
-- get_udp_client_info of src/server/server.c.
use shelter_server.Prelude.{
  ℕ, ◌%◌, ◌/◌, ◌^◌, ℤ, pos, negsuc, Bytes, text, Bool, Option, none, some, ◌==◌,
}
use shelter_server.Clients.Udp.{Family, inet, inet6, other, SockAddr}
use shelter_server.Server.{M, pure, get_state, ◌>>=◌}

-- The text of an address of 4 bytes and of one of 16 bytes.
pub record Ntop : Type 0 where
  pub ntop4 : ℕ → Bytes
  pub ntop6 : ℕ → Bytes

-- IN6_IS_ADDR_V4MAPPED: the prefix ::ffff:0:0/96, before an IPv4 address in the last 4 bytes.
abbrev pub is_v4_mapped : ℕ → Bool
is_v4_mapped addr6 = addr6 / 2 ^ 32 == 0xffff

abbrev pub mapped_ipv4 : ℕ → ℕ
mapped_ipv4 addr6 = addr6 % 2 ^ 32

module _ (net : Ntop) where
  -- Any family but AF_INET is read as AF_INET6.
  unfoldable pub peer_ip : Family → SockAddr → Bytes
  peer_ip inet addr = net.ntop4 addr.word
  peer_ip inet6 addr = net.ntop6 addr.addr6
  peer_ip other addr = net.ntop6 addr.addr6

  unfoldable pub client_ip : Option SockAddr → Bytes
  unfolding peer_ip
  client_ip none = text "Unknown"
  client_ip (some addr) = peer_ip addr.family addr

  unfoldable pub get_tcp_client_ip : ℕ → M Bytes
  unfolding client_ip
  get_tcp_client_ip client_fd = do s ← get_state; pure (client_ip (s.host.peer client_fd))

  -- The address, `none` where the buffer for it is not written, and the port.
  unfoldable pub udp_client_info : Family → SockAddr → Option Bytes × ℤ
  udp_client_info inet addr = (some (net.ntop4 addr.word), pos addr.port)
  udp_client_info inet6 addr = (some (net.ntop6 addr.addr6), pos addr.port)
  udp_client_info other addr = (none, negsuc 0)

  unfoldable pub get_udp_client_info : SockAddr → Option Bytes × ℤ
  unfolding udp_client_info
  get_udp_client_info addr = udp_client_info addr.family addr
