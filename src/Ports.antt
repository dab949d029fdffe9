-- ===== src/Ports.antt =====
-- The choice of the ports: set_ports of src/server/server.c, and the tests that main of
-- src/server/main.c makes in its place.
-- What get_available_port answers is a parameter: the port that the system assigns at each call.
pub mod CommandLine
pub mod Shared
use shelter_server.Prelude.{
  ℕ, ◌+◌, ℤ, pos, negsuc, ◌≡◌, refl, Bool, true, false, ◌&&◌, not, zero, suc, if◌then◌else◌,
}

pub record Ports : Type 0 where
  pub tcp_port : ℤ
  pub udp_port : ℤ
  -- The answer to each call of get_available_port, and the calls made so far.
  pub assigned : ℕ → ℕ
  pub calls : ℕ

-- DEFAULT_PORT is -1.
unfoldable pub is_default : ℤ → Bool
is_default (pos n) = false
is_default (negsuc zero) = true
is_default (negsuc (suc n)) = false

abbrev pub take_tcp_port : Ports → Ports
take_tcp_port p = record p { tcp_port = pos (p.assigned p.calls); calls = p.calls + 1 }

abbrev pub take_udp_port : Ports → Ports
take_udp_port p = record p { udp_port = pos (p.assigned p.calls); calls = p.calls + 1 }

-- The first test of set_ports: when one port alone was given.
unfoldable pub set_missing_port : Ports → Ports
unfolding is_default
set_missing_port p =
    if is_default p.tcp_port && not (is_default p.udp_port)
    then take_tcp_port p
    else if not (is_default p.tcp_port) && is_default p.udp_port
    then take_udp_port p
    else p

unfoldable pub fill_tcp_port : Ports → Ports
unfolding is_default
fill_tcp_port p = if is_default p.tcp_port then take_tcp_port p else p

unfoldable pub fill_udp_port : Ports → Ports
unfolding is_default
fill_udp_port p = if is_default p.udp_port then take_udp_port p else p

unfoldable pub set_ports : Ports → Ports
unfolding set_missing_port fill_tcp_port fill_udp_port
set_ports p = fill_udp_port (fill_tcp_port (set_missing_port p))

-- The chain of tests in main.
unfoldable pub choose_ports : Ports → Ports
unfolding is_default
choose_ports p =
    if is_default p.tcp_port && not (is_default p.udp_port)
    then take_tcp_port p
    else if not (is_default p.tcp_port) && is_default p.udp_port
    then take_udp_port p
    else if is_default p.tcp_port && is_default p.udp_port
    then take_udp_port (take_tcp_port p)
    else p

same_choice :
    (tcp udp : ℤ) (assigned : ℕ → ℕ) (calls : ℕ)
    → set_ports (record { tcp_port = tcp; udp_port = udp; assigned = assigned; calls = calls })
      ≡ choose_ports (record { tcp_port = tcp; udp_port = udp; assigned = assigned; calls = calls })
unfolding set_ports choose_ports
same_choice (pos m) (pos n) assigned calls = refl
same_choice (pos m) (negsuc zero) assigned calls = refl
same_choice (pos m) (negsuc (suc n)) assigned calls = refl
same_choice (negsuc zero) (pos n) assigned calls = refl
same_choice (negsuc zero) (negsuc zero) assigned calls = refl
same_choice (negsuc zero) (negsuc (suc n)) assigned calls = refl
same_choice (negsuc (suc m)) (pos n) assigned calls = refl
same_choice (negsuc (suc m)) (negsuc zero) assigned calls = refl
same_choice (negsuc (suc m)) (negsuc (suc n)) assigned calls = refl

-- The tests of main and the function set_ports make the same choice: the same ports, by the same
-- number of calls of get_available_port.
pub set_ports_lem : (p : Ports) → set_ports p ≡ choose_ports p
set_ports_lem p = same_choice p.tcp_port p.udp_port p.assigned p.calls
