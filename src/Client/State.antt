-- ===== src/Client/State.antt =====
-- The clients of lib/index.ts and lib/transport.ts as functions on a state: what they have called so
-- far, what TransportManager holds, and what a call of foreign code came to.
use sshclient_sftp_wasm.Base.{
  ℕ, Bool, Option, none, some, List, [], ◌∷◌, ◌++◌, if◌then◌else◌, Bytes, Text, text_eq,
}
use sshclient_sftp_wasm.Client.Errors.{HostKeyPin, Thrown}
use sshclient_sftp_wasm.Client.Program.{Outcome, Program}

-- A Transport: the object, and its `id`.
pub record Transport : Type 0 where
  pub object : ℕ
  pub id : Text

pub record ConnectionOptions : Type 0 where
  pub host : Text
  pub port : ℕ
  pub user : Text
  pub password : Option Text
  pub private_key : Option Text
  pub timeout : Option ℕ
  pub host_key_pin : Option HostKeyPin

-- The calls of a transport's methods, of the functions that the WebAssembly module exports, and of
-- the methods of the session that its `connect` gives.
pub data Call : Type 0 where
  transport_connect transport_disconnect : ℕ → Call
  transport_send : ℕ → Bytes → Call
  -- the transport's `onError`, if it has one
  transport_error : ℕ → Thrown → Call
  wasm_create_transport wasm_close_transport : Text → Call
  wasm_inject : Text → Bytes → Call
  wasm_connect wasm_fingerprint : ConnectionOptions → Text → Call
  session_send : Text → Bytes → Call
  session_disconnect : Text → Call
  session_resize : Text → ℕ → ℕ → Call
  wasm_sftp_open : Text → Call
  -- `disconnect`, `send` and `version` of the module itself
  wasm_disconnect : Text → Call
  wasm_send : Text → Bytes → Call
  wasm_version : Call

-- The foreign code: what each call comes to, which may depend on all the calls before it.
pub record Env : Type 0 where
  pub connects : List Call → ℕ → Outcome (Unit {0})
  pub disconnects : List Call → ℕ → Outcome (Unit {0})
  pub transmits : List Call → ℕ → Bytes → Outcome (Unit {0})
  pub injects : List Call → Text → Bytes → Outcome (Unit {0})
  pub creates : List Call → Text → Outcome (Unit {0})
  pub closes : List Call → Text → Outcome (Unit {0})
  pub opens_session : List Call → ConnectionOptions → Text → Outcome Text
  pub captures : List Call → ConnectionOptions → Text → Outcome HostKeyPin
  pub sends : List Call → Text → Bytes → Outcome (Unit {0})
  pub ends_session : List Call → Text → Outcome (Unit {0})
  pub resizes : List Call → Text → ℕ → ℕ → Outcome (Unit {0})
  pub opens_sftp : List Call → Text → Outcome Text
  pub ends_by_id : List Call → Text → Outcome (Unit {0})
  pub sends_by_id : List Call → Text → Bytes → Outcome (Unit {0})
  pub versions : List Call → Outcome Text

-- `transports` is the Map of TransportManager, the latest entry first; `attached` are the transports
-- whose `onData` injects into the WebAssembly module, with the id that it uses.
pub record Client : Type 0 where
  pub initialized : Bool
  pub wasm_set : Bool
  pub transports : List (Text × ℕ)
  pub attached : List (ℕ × Text)
  pub calls : List Call

-- A method of the client.
abbrev pub Run {ℓ} : Type ℓ → Type ℓ
Run A = Program Client A

-- A call of foreign code.
abbrev pub call {ℓ} : {A : Type ℓ} → (List Call → Outcome A) → Call → Run A
call reply k c = (reply c.calls, record c { calls = c.calls ++ (k ∷ []) })

-- `Map.get`, `Map.delete` and `Map.set`
unfoldable pub get : Text → List (Text × ℕ) → Option ℕ
get i [] = none
get i ((j, o) ∷ ts) = if text_eq i j then some o else get i ts

unfoldable pub delete : Text → List (Text × ℕ) → List (Text × ℕ)
delete i [] = []
delete i ((j, o) ∷ ts) = if text_eq i j then delete i ts else (j, o) ∷ delete i ts

unfoldable pub set : Text → ℕ → List (Text × ℕ) → List (Text × ℕ)
set i o ts = (i, o) ∷ delete i ts
