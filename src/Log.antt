-- ===== src/Log.antt =====
-- log_event of src/server/server.c.
use shelter_server.Prelude.{
  Bytes, text, snprintf, Bool, true, false, ◌&&◌, none, some, ◌++◌, if◌then◌else◌,
}
use shelter_server.Server.{logged, M, pure, exit_failure, emit, get_state, put_state, ◌>>=◌, ◌>>◌}

-- get_home_dir: the program ends where HOME is not set.
unfoldable pub get_home_dir : M Bytes
get_home_dir = do s ← get_state; elim s.host.home [ none ↦ exit_failure | some home ↦ pure home ]

-- stat and mkdir of the log directory; `false` where the directory is not there afterwards.
unfoldable pub ensure_log_dir : M Bool
ensure_log_dir = do
  s ← get_state
  if s.host.log_dir_exists
      then pure true
      else if s.host.can_mkdir
      then (do put_state (record s { host = record s.host { log_dir_exists = true } }); pure true)
      else pure false

-- Lines of the log carry the time in brackets.
abbrev pub log_path : Bytes → Bytes
log_path home = snprintf 512 (snprintf 256 (home ++ text "/.refuge/") ++ text "refuge.log")

unfoldable pub log_event : Bytes → M (Unit {0})
unfolding get_home_dir ensure_log_dir
log_event message = do
  home ← get_home_dir
  there ← ensure_log_dir
  s ← get_state
  if there && s.host.can_open_log
      then emit (logged (log_path home) (text "[" ++ s.host.clock ++ text "]") message)
      else pure tt
