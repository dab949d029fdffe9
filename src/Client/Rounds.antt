-- ===== src/Client/Rounds.antt =====
-- How the loops of handle_user_input end, in src/clients/tcp_client.c and src/clients/udp_client.c.
use shelter_server.Prelude.{Bytes, Bool, List}

-- The user's answers so far are used up, a read fails, or the user leaves; then the child is killed,
-- if there is one, and the socket closed, and the TCP client leaves by exit.
pub data Ending : Type 0 where
  waiting : Ending
  stopped : Ending
  disconnected : Bool → Ending

-- The messages that were sent, the first one first.
pub record Session : Type 0 where
  pub sent : List Bytes
  pub ended : Ending
