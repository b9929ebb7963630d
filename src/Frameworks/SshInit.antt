-- ===== src/Frameworks/SshInit.antt =====
-- `useSSHClient` of lib/react.ts, lib/next.ts and lib/vite.ts, and `withSSHClient`: the state of the
-- hook over what happens to the component and to the promise of `initialize`.
use sshclient_sftp_wasm.Base.{
  ℕ, suc, Bool, true, false, ◌&&◌, ◌||◌, Option, none, some, List, [], ◌∷◌, ltb, ◌==◌,
  if◌then◌else◌,
}
use sshclient_sftp_wasm.Client.Errors.{Thrown}
use sshclient_sftp_wasm.Client.Program.{Outcome, resolved, rejected}

-- Each run of the effect has a variable `mounted` of its own; React runs the cleanup of one before
-- the next one runs, so at most one is true. `awaiting` are the runs whose promise has settled and
-- whose `finally` has not been called.
pub record SshInit : Type 0 where
  pub is_initialized : Bool
  pub init_error : Option Thrown
  pub is_loading : Bool
  pub effects_run : ℕ
  pub mounted : Option ℕ
  pub awaiting : List ℕ

abbrev pub start : SshInit
start = record {
  is_initialized = false;
  init_error = none;
  is_loading = true;
  effects_run = 0;
  mounted = none;
  awaiting = [];
}

-- The effect runs, for the first time or for other options; its cleanup runs; the promise of the
-- n-th run settles, and `then` or `catch` is called; its `finally` is called.
pub data InitEvent : Type 0 where
  effect_runs cleans_up : InitEvent
  settles : ℕ → Outcome (Unit {0}) → InitEvent
  finishes : ℕ → InitEvent

unfoldable pub is_among : ℕ → List ℕ → Bool
is_among n [] = false
is_among n (k ∷ ks) = k == n || is_among n ks

abbrev pub is_mounted : ℕ → Option ℕ → Bool
is_mounted n none = false
is_mounted n (some k) = k == n

-- `if (mounted) { … }` of `then` and of `catch`.
abbrev pub settled : Outcome (Unit {0}) → SshInit → SshInit
settled (resolved u) h = record h { is_initialized = true; init_error = none }
settled (rejected e) h = record h { init_error = some e; is_initialized = false }

-- A promise settles of a run that was, and `finally` is called behind that.
unfoldable pub step : InitEvent → SshInit → SshInit
unfolding is_among
step effect_runs h = record h { mounted = some h.effects_run; effects_run = suc h.effects_run }
step cleans_up h = record h { mounted = none }
step (settles n o) h =
    if ltb n h.effects_run
    then record (if is_mounted n h.mounted then settled o h else h) { awaiting = n ∷ h.awaiting }
    else h
step (finishes n) h =
    if is_among n h.awaiting && is_mounted n h.mounted then record h { is_loading = false } else h

-- What `withSSHClient` renders.
pub data Rendered : Type 0 where
  initializing uninitialized component : Rendered
  failed : Thrown → Rendered

abbrev pub rendered_error : Option Thrown → Bool → Rendered
rendered_error (some e) ready = failed e
rendered_error none true = component
rendered_error none false = uninitialized

unfoldable pub with_ssh_client : SshInit → Rendered
with_ssh_client h =
    if h.is_loading then initializing else rendered_error h.init_error h.is_initialized
