-- ===== src/Tests/Frameworks.antt =====
-- ViteConfig of lib/vite.ts and the hook of lib/react.ts at concrete inputs.
use sshclient_sftp_wasm.Base.{each, ◌≡◌, refl, List, [], ◌∷◌, some, codes, Text, text_eq}
use sshclient_sftp_wasm.Frameworks.ViteConfig.{
  Value, object, text, lookup, spread, get_vite_config, recommended, get_vite_config-lookup,
}
use sshclient_sftp_wasm.Client.Errors.{plain_error}
use sshclient_sftp_wasm.Client.Program.{resolved, rejected}
use sshclient_sftp_wasm.Client.Api.{Session}
use sshclient_sftp_wasm.Frameworks.SshConnection.{
  is_connected, connect_begins, state_changes, connect_settles, disconnects, start, step,
  IsConsistent, run-IsConsistent,
}

abbrev session : Session
session = record { session_id = codes "s1"; transport = record { object = 1; id = codes "t1" } }

run-IsConsistent_example : IsConsistent (
    each step
      (connect_begins
        ∷ state_changes is_connected
        ∷ connect_settles (resolved session)
        ∷ disconnects (some session) (rejected (plain_error (codes "EOF")))
        ∷ [])
      start)
run-IsConsistent_example = run-IsConsistent (
    connect_begins
    ∷ state_changes is_connected
    ∷ connect_settles (resolved session)
    ∷ disconnects (some session) (rejected (plain_error (codes "EOF")))
    ∷ [])

abbrev with_port : List (Text × Value)
with_port = (codes "server", object ((codes "port", text (codes "3000")) ∷ [])) ∷ []

get_vite_config-lookup_example :
    lookup (codes "server") (get_vite_config with_port)
    ≡ lookup (codes "server") (spread recommended with_port)
get_vite_config-lookup_example = get_vite_config-lookup (codes "server") with_port

headers_lost :
    lookup (codes "server") (get_vite_config with_port)
    ≡ some (object ((codes "port", text (codes "3000")) ∷ []))
unfolding lookup get_vite_config text_eq
headers_lost = refl
