-- ===== src/Client/Fork.antt =====
-- The second process of a client: fork in main, and redirect_output_to_parent, of
-- src/clients/tcp_client.c and src/clients/udp_client.c.
use shelter_server.Prelude.{ℕ, Bool, true, false, Option, none, some}
use shelter_server.Client.{Run, ok, exit_failure}

-- What fork returns in the parent, `none` for -1.
unfoldable pub fork_child : Option ℕ → Run ℕ
fork_child none = exit_failure
fork_child (some pid_child) = ok pid_child

-- Whether dup2 succeeds. In the child `pid_child` is 0, the descriptor of its standard input.
unfoldable pub redirect_output_to_parent : Bool → Run (Unit {0})
redirect_output_to_parent true = ok tt
redirect_output_to_parent false = exit_failure
