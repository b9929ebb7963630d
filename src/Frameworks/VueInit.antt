-- ===== src/Frameworks/VueInit.antt =====
-- `useSSHClientVue` of lib/vite.ts, and the hook `useSSHClient` beside it.
use sshclient_sftp_wasm.Base.{◌≡◌, refl, Bool, true, false, Option, none, some, [], ◌∷◌, each}
use sshclient_sftp_wasm.Client.Errors.{Thrown}
use sshclient_sftp_wasm.Client.Program.{Outcome, resolved, rejected}
use sshclient_sftp_wasm.Frameworks.SshInit.{
  SshInit, start, effect_runs, settles, finishes, is_among, step,
}

-- The values of the three refs.
pub record VueInit : Type 0 where
  pub is_initialized : Bool
  pub init_error : Option Thrown
  pub is_loading : Bool

abbrev pub refs : VueInit
refs = record { is_initialized = false; init_error = none; is_loading = true }

-- The `try` and the `catch` of the function given to `onMounted`.
abbrev pub tried : Outcome (Unit {0}) → VueInit → VueInit
tried (resolved u) v = record v { is_initialized = true; init_error = none }
tried (rejected e) v = record v { init_error = some e; is_initialized = false }

-- The component is mounted, and `initialize` comes to an outcome.
unfoldable pub mounted_with : Outcome (Unit {0}) → VueInit → VueInit
mounted_with o v = record (tried o v) { is_loading = false }

abbrev shown_by : SshInit → VueInit
shown_by h = record {
  is_initialized = h.is_initialized;
  init_error = h.init_error;
  is_loading = h.is_loading;
}

-- A component that stays mounted sees the same of both: what `useSSHClientVue` shows for an outcome
-- is what `useSSHClient` shows once its effect has run and its promise has settled with it.
mounted_with_lem :
    (o : Outcome (Unit {0}))
    → shown_by (each step (effect_runs ∷ settles 0 o ∷ finishes 0 ∷ []) start) ≡ mounted_with o refs
unfolding step is_among mounted_with
mounted_with_lem (resolved u) = refl
mounted_with_lem (rejected e) = refl
