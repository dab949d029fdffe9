-- ===== src/Client/OsRelease.antt =====
-- get_os_id and extract_value, the same in src/clients/tcp_client.c and src/clients/udp_client.c.
-- The argument is what /etc/os-release holds, bytes without a zero, or `none` where fopen fails.
pub mod Fields
use shelter_server.Prelude.{
  ℕ, zero, suc, ◌+◌, ◌≤◌, ◌≡◌, refl, sym, ap, ◌∙◌, Bytes, text, bytes_eq, is_prefix, Bool, true,
  false, Option, none, some, List, [], ◌∷◌, ◌++◌, map, append-nil, append_assoc, if◌then◌else◌,
  ◌==◌, ◌&&◌, length, arith,
}
use shelter_server.Client.{Run, ok, exit_failure}

-- strtok of the C library with one delimiter: the token, and what is left for the next call.
unfoldable pub skip : ℕ → Bytes → Bytes
skip d [] = []
skip d (b ∷ s) = let rest = skip d s in if b == d then rest else b ∷ s

unfoldable pub until : ℕ → Bytes → Bytes
until d [] = []
until d (b ∷ s) = let rest = until d s in if b == d then [] else b ∷ rest

unfoldable pub after : ℕ → Bytes → Bytes
after d [] = []
after d (b ∷ s) = let rest = after d s in if b == d then s else rest

pub record Token : Type 0 where
  pub token : Bytes
  pub left : Bytes

unfoldable pub token_of : ℕ → Bytes → Option Token
unfolding until after
token_of d [] = none
token_of d (b ∷ s) = some (record { token = until d (b ∷ s); left = after d (b ∷ s) })

unfoldable pub strtok : ℕ → Bytes → Option Token
unfolding skip token_of
strtok d s = token_of d (skip d s)

abbrev pub map_token : Option Token → Option Bytes
map_token none = none
map_token (some t) = some t.token

-- A call that finds no token leaves nothing for the calls after it.
unfoldable pub without_newline : Option Token → Option Bytes
unfolding strtok
without_newline none = none
without_newline (some t) = map_token (strtok 10 t.token)

unfoldable pub value_in : Option Token → Option Bytes
unfolding without_newline strtok
value_in none = none
value_in (some t) = without_newline (strtok 61 t.left)

unfoldable pub extract_value : Bytes → Option Bytes
unfolding value_in strtok
extract_value line = value_in (strtok 61 line)

-- The line of a byte in front of the others: fgets ends it at a newline, or when `room` is used up.
abbrev pub onto_first : ℕ → List Bytes → List Bytes
onto_first b [] = (b ∷ []) ∷ []
onto_first b (l ∷ ls) = (b ∷ l) ∷ ls

-- What the calls of fgets with a buffer of 1024 bytes read in turn; the last line may be empty here,
-- where fgets reads none.
unfoldable pub fgets_lines : ℕ → Bytes → List Bytes
fgets_lines room [] = [] ∷ []
fgets_lines zero (b ∷ s) = (b ∷ []) ∷ fgets_lines 1022 s
fgets_lines (suc room) (b ∷ s) =
    let more = fgets_lines room s in
    let next = fgets_lines 1022 s in if b == 10 then (b ∷ []) ∷ next else onto_first b more

-- `room` counts the bytes after the next one.
unfoldable pub find_id : List Bytes → Option Bytes
unfolding extract_value is_prefix
find_id [] = none
find_id (line ∷ lines) =
    let rest = find_id lines in if is_prefix (text "ID=") line then extract_value line else rest

-- A result of get_os_id: NULL, or a pointer into its array `line`, which ends with the call; the bytes
-- are those that stood there at the end.
pub data Pointer : Type 0 where
  null : Pointer
  into_ended : Bytes → Pointer

abbrev pub pointer_to : Option Bytes → Pointer
pointer_to none = null
pointer_to (some value) = into_ended value

unfoldable pub get_os_id : Option Bytes → Run Pointer
unfolding fgets_lines find_id
get_os_id none = exit_failure
get_os_id (some file) = ok (pointer_to (find_id (fgets_lines 1022 file)))
