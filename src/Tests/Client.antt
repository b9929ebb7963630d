-- ===== src/Tests/Client.antt =====
-- SSHClient of lib/index.ts and wrapSSHError of lib/errors.ts at concrete inputs.
use sshclient_sftp_wasm.Base.{
  ◌≡◌, refl, true, false, some, none, [], ◌∷◌, All, each, codes, text_eq,
}
use sshclient_sftp_wasm.Client.Errors.{
  HostKeyPin, Thrown, auth_failed, plain_error, ssh_error, object, code_name, class_of, code_of,
  message_of, wrap_ssh_error,
}
use sshclient_sftp_wasm.Client.Codes.{wrap_ssh_error-code}
use sshclient_sftp_wasm.Client.Program.{resolved, rejected}
use sshclient_sftp_wasm.Client.State.{
  Transport, ConnectionOptions, wasm_create_transport, wasm_fingerprint, transport_connect,
  session_disconnect, Env, Client, get,
}
use sshclient_sftp_wasm.Client.Api.{Session, connect, disconnect, get_server_fingerprint}
use sshclient_sftp_wasm.Client.Transports.{Settles}
use sshclient_sftp_wasm.Client.Lifetime.{Accounted, closing, connect-Accounted, connect_leaks}
use sshclient_sftp_wasm.Client.Closing.{disconnect_closes, get_server_fingerprint_closes}
use sshclient_sftp_wasm.Client.Operations.{connects, captures, disconnects, step}
use sshclient_sftp_wasm.Client.Keeps.{IsGuarded}
use sshclient_sftp_wasm.Client.Pinning.{run_pinned}

abbrev pin : HostKeyPin
pin = record { algorithm = codes "ssh-ed25519"; sha256 = codes "SHA256:abc" }

abbrev options : ConnectionOptions
options = record {
  host = codes "sftp.example.com";
  port = 22;
  user = codes "deploy";
  password = some (codes "secret");
  private_key = none;
  timeout = none;
  host_key_pin = some pin;
}

abbrev t1 : Transport
t1 = record { object = 1; id = codes "t1" }

-- All calls resolve.
abbrev calm : Env
calm = record {
  connects = λ h o. resolved tt;
  disconnects = λ h o. resolved tt;
  transmits = λ h o b. resolved tt;
  injects = λ h i b. resolved tt;
  creates = λ h i. resolved tt;
  closes = λ h i. resolved tt;
  opens_session = λ h o i. resolved (codes "s1");
  captures = λ h o i. resolved pin;
  sends = λ h i b. resolved tt;
  ends_session = λ h i. resolved tt;
  resizes = λ h i cols rows. resolved tt;
  opens_sftp = λ h i. resolved (codes "f1");
  ends_by_id = λ h i. resolved tt;
  sends_by_id = λ h i b. resolved tt;
  versions = λ h. resolved (codes "1.0");
}

calm-Settles : Settles calm
calm-Settles = record { disconnects_settle = λ h o. refl; closes_settle = λ h i. refl }

-- What the module sends for a wrong password.
abbrev denial : Thrown
denial = object (some (codes "auth-failed")) (some (codes "denied")) none none

abbrev denying : Env
denying = record calm { opens_session = λ h o i. rejected denial }

denying-Settles : Settles denying
denying-Settles = record { disconnects_settle = λ h o. refl; closes_settle = λ h i. refl }

abbrev unreachable : Env
unreachable = record calm { connects = λ h o. rejected (plain_error (codes "WebSocket error")) }

abbrev fresh : Client
fresh = record { initialized = true; wasm_set = true; transports = []; attached = []; calls = [] }

abbrev session : Session
session = record { session_id = codes "s1"; transport = t1 }

wrap_ssh_error-code_example :
    (code_of (wrap_ssh_error denial) ≡ some (code_name auth_failed))
    × (message_of (wrap_ssh_error denial) ≡ some (codes "denied"))
wrap_ssh_error-code_example = wrap_ssh_error-code auth_failed denial refl

denial_wrapped : wrap_ssh_error denial ≡ ssh_error auth_failed (codes "denied") none none
unfolding wrap_ssh_error class_of text_eq
denial_wrapped = refl

connect-Accounted_example : Accounted denying options t1 fresh (connect denying options t1 fresh)
connect-Accounted_example =
    connect-Accounted denying options t1 fresh denying-Settles refl refl refl (λ h. refl)

connect_leaks_example :
    let (o, d) = connect unreachable options t1 fresh in
    (o ≡ rejected (plain_error (codes "WebSocket error")))
    × (get t1.id d.transports ≡ some t1.object)
    × (d.calls ≡ wasm_create_transport t1.id ∷ transport_connect t1.object ∷ [])
connect_leaks_example =
    connect_leaks unreachable options t1 fresh (plain_error (codes "WebSocket error")) refl refl
      refl refl (λ h. refl)

abbrev holding : Client
holding = record fresh { transports = (t1.id, 1) ∷ (codes "t2", 2) ∷ [] }

disconnect_closes_example :
    let (o, d) = disconnect calm session holding in
    (o ≡ resolved tt)
    × (d.calls ≡ session_disconnect (codes "s1") ∷ closing t1)
    × (get t1.id d.transports ≡ none)
    × (get (codes "t2") d.transports ≡ get (codes "t2") holding.transports)
unfolding get text_eq
disconnect_closes_example =
    disconnect_closes calm session holding (codes "t2") calm-Settles refl first other
  where
    first : get t1.id holding.transports ≡ some 1
    first = refl

    other : text_eq (codes "t2") t1.id ≡ false
    other = refl

get_server_fingerprint_closes_example :
    let (o, d) = get_server_fingerprint calm options t1 fresh in
    (o ≡ resolved pin)
    × (get t1.id d.transports ≡ none)
    × (d.calls
        ≡ wasm_create_transport t1.id
          ∷ transport_connect t1.object
          ∷ wasm_fingerprint options t1.id
          ∷ closing t1)
get_server_fingerprint_closes_example =
    get_server_fingerprint_closes calm options t1 fresh calm-Settles refl refl refl (λ h. refl)

run_pinned_example :
    All IsGuarded
      (each
        (step denying)
        (connects options t1
          ∷ captures (record options { host_key_pin = none }) t1
          ∷ disconnects session
          ∷ [])
        fresh).calls
run_pinned_example =
    run_pinned denying
      (connects options t1
        ∷ captures (record options { host_key_pin = none }) t1
        ∷ disconnects session
        ∷ [])
      fresh refl

abbrev broken : Env
broken = record calm { transmits = λ h o b. rejected (plain_error (codes "closed")) }
