-- ===== src/Client/HostName.antt =====
-- How the clients find the name that they send as "hostname": the first lines of authenticate of
-- src/clients/tcp_client.c and of handle_user_input of src/clients/udp_client.c.
use shelter_server.Prelude.{◌+◌, ◌≡◌, refl, Bytes, Option, none, some, length, leb, if◌then◌else◌}
use shelter_server.Client.{Run, ok, fault, ◌>>=◌}
use shelter_server.Client.OsRelease.{Pointer, null, into_ended, pointer_to, get_os_id}
use shelter_server.TcpClient.Encoding.{encode_utf8, allocated}

-- The encoding as it is written into the memory that was asked for.
unfoldable pub encoded : Bytes → Run Bytes
unfolding encode_utf8 allocated
encoded input =
    if leb (length (encode_utf8 input) + 1) (allocated input) then ok (encode_utf8 input) else fault

-- strlen reads through the pointer: through NULL, or from an array that is no more.
abbrev pub read_at : Pointer → Run Bytes
read_at null = fault
read_at (into_ended value) = fault

-- The argument is what /etc/os-release holds, `none` where it is not opened.
unfoldable pub hostname : Option Bytes → Run Bytes
unfolding get_os_id encoded
hostname file = get_os_id file >>= λ os_id. read_at os_id >>= encoded

read_at_faults : (o : Option Bytes) → (read_at (pointer_to o) >>= encoded) ≡ fault
read_at_faults none = refl
read_at_faults (some value) = refl

-- Where the file opens, the name is read through a pointer that C gives no meaning.
pub hostname_faults : (file : Bytes) → hostname (some file) ≡ fault
unfolding hostname
hostname_faults file = read_at_faults _
