-- ===== src/Frameworks/SshConnection.antt =====
-- `useSSHConnection` of lib/react.ts: what its state is after what happened to the connection.
use sshclient_sftp_wasm.Base.{◌≡◌, ◌≢◌, refl, Option, none, some, List, [], ◌∷◌, each}
use sshclient_sftp_wasm.Client.Errors.{Thrown}
use sshclient_sftp_wasm.Client.Program.{Outcome, resolved, rejected}
use sshclient_sftp_wasm.Client.Api.{Session}

-- SSHConnectionState of lib/index.ts.
pub data SshConnectionState : Type 0 where
  is_connecting is_connected is_disconnecting is_disconnected has_error : SshConnectionState

-- The state that the hook shows.
pub data HookState : Type 0 where
  idle connecting connected error disconnected : HookState

pub record SshConnection : Type 0 where
  pub session : Option Session
  pub connection_state : HookState
  pub connection_error : Option Thrown

abbrev pub start : SshConnection
start = record { session = none; connection_state = idle; connection_error = none }

-- `state === 'connected' ? 'connected' : 'connecting'`
abbrev pub shown : SshConnectionState → HookState
shown is_connected = connected
shown s = connecting

-- A call of `connect` begins; the client reports a state; the call settles; a call of `disconnect`,
-- made when the hook had that session, comes to an outcome.
pub data HookEvent : Type 0 where
  connect_begins : HookEvent
  state_changes : SshConnectionState → HookEvent
  connect_settles : Outcome Session → HookEvent
  disconnects : Option Session → Outcome (Unit {0}) → HookEvent

unfoldable pub settle_connect : Outcome Session → SshConnection → SshConnection
settle_connect (resolved s) c = record c { session = some s; connection_state = connected }
settle_connect (rejected e) c = record c { connection_error = some e; connection_state = error }

-- Without a session `disconnect` does nothing.
unfoldable pub settle_disconnect :
    Option Session → Outcome (Unit {0}) → SshConnection → SshConnection
settle_disconnect none o c = c
settle_disconnect (some s) (resolved u) c = record c {
  session = none;
  connection_state = disconnected;
}
settle_disconnect (some s) (rejected e) c = record c {
  connection_error = some e;
  connection_state = error;
}

unfoldable pub step : HookEvent → SshConnection → SshConnection
step connect_begins c = record c { connection_state = connecting; connection_error = none }
step (state_changes s) c = record c { connection_state = shown s }
step (connect_settles o) c = settle_connect o c
step (disconnects s o) c = settle_disconnect s o c

-- What each shown state promises of the session and the error.
abbrev pub Promises : HookState → Option Session → Option Thrown → Type 0
Promises idle s e = (s ≡ none) × (e ≡ none)
Promises connecting s e = Unit
Promises connected s e = Unit
Promises error s e = e ≢ none
Promises disconnected s e = s ≡ none

abbrev pub IsConsistent : SshConnection → Type 0
IsConsistent c = Promises c.connection_state c.session c.connection_error

shown-Promises :
    (x : SshConnectionState) (s : Option Session) (e : Option Thrown) → Promises (shown x) s e
shown-Promises is_connected s e = tt
shown-Promises is_connecting s e = tt
shown-Promises is_disconnecting s e = tt
shown-Promises is_disconnected s e = tt
shown-Promises has_error s e = tt

settle_connect-IsConsistent :
    (o : Outcome Session) (c : SshConnection) → IsConsistent (settle_connect o c)
unfolding settle_connect
settle_connect-IsConsistent (resolved s) c = tt
settle_connect-IsConsistent (rejected e) c = λ h. cc

settle_disconnect-IsConsistent :
    (s : Option Session) (o : Outcome (Unit {0})) (c : SshConnection)
    → IsConsistent c
    → IsConsistent (settle_disconnect s o c)
unfolding settle_disconnect
settle_disconnect-IsConsistent none o c h = h
settle_disconnect-IsConsistent (some s) (resolved u) c h = refl
settle_disconnect-IsConsistent (some s) (rejected e) c h = λ k. cc

step-IsConsistent : (v : HookEvent) (c : SshConnection) → IsConsistent c → IsConsistent (step v c)
unfolding step
step-IsConsistent connect_begins c h = tt
step-IsConsistent (state_changes s) c h = shown-Promises s c.session c.connection_error
step-IsConsistent (connect_settles o) c h = settle_connect-IsConsistent o c
step-IsConsistent (disconnects s o) c h = settle_disconnect-IsConsistent s o c h

run_keeps :
    (vs : List HookEvent) (c : SshConnection) → IsConsistent c → IsConsistent (each step vs c)
run_keeps [] c h = h
run_keeps (v ∷ vs) c h = run_keeps vs (step v c) (step-IsConsistent v c h)

-- Whatever happens, in whatever order, from the hook's start: where it shows an error there is one,
-- where it shows a disconnected connection there is no session, and where it is idle there is
-- neither.
pub run-IsConsistent : (vs : List HookEvent) → IsConsistent (each step vs start)
run-IsConsistent vs = run_keeps vs start (refl, refl)
