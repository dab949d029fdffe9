-- ===== src/Ports/Shared.antt =====
-- The ports in shared memory: share_ports_shared_memory of src/server/server.c, and
-- get_port_whith_shared_mem and get_port of src/clients/tcp_client.c and src/clients/udp_client.c.
-- The object "/port_shared_memory" is `none` where it does not exist.
use shelter_server.Prelude.{
  ℤ, pos, negsuc, zero, suc, ◌≡◌, refl, Bool, true, false, not, Option, none, some, if◌then◌else◌,
}
use shelter_server.Client.{Run, ok, exit_failure}
use shelter_server.Ports.{Ports, is_default, choose_ports}

pub record PortInfo : Type 0 where
  pub tcp_port : ℤ
  pub udp_port : ℤ

-- Whether shm_open, ftruncate and mmap succeed in the server.
pub record SharedMemory : Type 0 where
  pub opens : Bool
  pub truncates : Bool
  pub maps : Bool

-- A failure after shm_open unlinks the object.
unfoldable pub share_ports_shared_memory : SharedMemory → ℤ → ℤ → Option PortInfo → Option PortInfo
share_ports_shared_memory mem tcp udp before =
    if not mem.opens
    then before
    else if not mem.truncates
    then none
    else if not mem.maps
    then none
    else some (record { tcp_port = tcp; udp_port = udp })

-- What shm_open and mmap give a client; -1 where one of them fails.
unfoldable pub shared_tcp_port : Option PortInfo → ℤ
shared_tcp_port none = negsuc 0
shared_tcp_port (some p) = p.tcp_port

unfoldable pub shared_udp_port : Option PortInfo → ℤ
shared_udp_port none = negsuc 0
shared_udp_port (some p) = p.udp_port

-- get_port, with the option's port and what the shared memory gives.
unfoldable pub get_port : ℤ → ℤ → Run ℤ
unfolding is_default
get_port port shared =
    if is_default port then (if is_default shared then exit_failure else ok shared) else ok port

-- The chosen ports are no defaults.
tcp_chosen :
    (tcp udp : ℤ) (p : Ports)
    → is_default (choose_ports (record p { tcp_port = tcp; udp_port = udp })).tcp_port ≡ false
unfolding choose_ports is_default
tcp_chosen (pos m) (pos n) p = refl
tcp_chosen (pos m) (negsuc zero) p = refl
tcp_chosen (pos m) (negsuc (suc n)) p = refl
tcp_chosen (negsuc zero) (pos n) p = refl
tcp_chosen (negsuc zero) (negsuc zero) p = refl
tcp_chosen (negsuc zero) (negsuc (suc n)) p = refl
tcp_chosen (negsuc (suc m)) (pos n) p = refl
tcp_chosen (negsuc (suc m)) (negsuc zero) p = refl
tcp_chosen (negsuc (suc m)) (negsuc (suc n)) p = refl

udp_chosen :
    (tcp udp : ℤ) (p : Ports)
    → is_default (choose_ports (record p { tcp_port = tcp; udp_port = udp })).udp_port ≡ false
unfolding choose_ports is_default
udp_chosen (pos m) (pos n) p = refl
udp_chosen (pos m) (negsuc zero) p = refl
udp_chosen (pos m) (negsuc (suc n)) p = refl
udp_chosen (negsuc zero) (pos n) p = refl
udp_chosen (negsuc zero) (negsuc zero) p = refl
udp_chosen (negsuc zero) (negsuc (suc n)) p = refl
udp_chosen (negsuc (suc m)) (pos n) p = refl
udp_chosen (negsuc (suc m)) (negsuc zero) p = refl
udp_chosen (negsuc (suc m)) (negsuc (suc n)) p = refl

port_taken : (shared : ℤ) → is_default shared ≡ false → get_port (negsuc 0) shared ≡ ok shared
unfolding get_port
port_taken shared h = unfold is_default in (rw h refl)

-- What main of the server shares.
abbrev pub shared_choice : Ports → Option PortInfo → Option PortInfo
shared_choice p before =
    share_ports_shared_memory (record { opens = true; truncates = true; maps = true })
      (choose_ports p).tcp_port (choose_ports p).udp_port before

-- When the server has chosen its ports and shared them without a failure, whatever was shared before
-- and whatever ports it was started with, a client that is started without a port gets the port that
-- the server chose, the TCP client the TCP port and the UDP client the UDP port.
pub get_port-shared :
    (p : Ports) (before : Option PortInfo)
    → (get_port (negsuc 0) (shared_tcp_port (shared_choice p before))
        ≡ ok (choose_ports p).tcp_port)
      × (get_port (negsuc 0) (shared_udp_port (shared_choice p before))
          ≡ ok (choose_ports p).udp_port)
unfolding shared_tcp_port shared_udp_port share_ports_shared_memory
get_port-shared p before = (
  port_taken _ (tcp_chosen p.tcp_port p.udp_port p),
  port_taken _ (udp_chosen p.tcp_port p.udp_port p),
)
