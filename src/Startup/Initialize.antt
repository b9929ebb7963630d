-- ===== src/Startup/Initialize.antt =====
-- SSHClient.initialize of lib/index.ts, with `testAssetAvailability` and `loadWasmExecutor`.
use mathlib.Core.Option
use sshclient_sftp_wasm.Base.{
  ℕ, Bool, true, false, not, Option, List, [], ◌∷◌, ◌++◌, codes, if◌then◌else◌, Text, ◌⊎◌,
}
use sshclient_sftp_wasm.Client.Errors.{Thrown, ssh_error, plain_error}
use sshclient_sftp_wasm.Client.Program.{
  Outcome, resolved, rejected, Program, pure, throw, ◌>>=◌, ◌>>◌, catching,
}
use sshclient_sftp_wasm.Startup.Assets.{
  Globals, InitializationOptions, AssetPaths, get_asset_paths, init_options, is_set,
}

-- What `initialize` asks of the page, the network and the Go runtime.
pub data Request : Type 0 where
  head fetched : Text → Request
  -- a script, and the milliseconds that it may take
  script : Text → ℕ → Request
  new_go read_buffer instantiate wait version : Request

pub record Response : Type 0 where
  pub ok : Bool
  -- `${response.status} ${response.statusText}`
  pub status : Text

-- The page, as it answers each request after those before it. The promise of a script comes from
-- its load or error event or from the timeout, whichever is first.
pub record Page : Type 0 where
  pub globals : Globals
  pub has_go : List Request → Bool
  pub has_client : List Request → Bool
  pub has_version : Bool
  -- `process.env.NODE_ENV === 'development'`, which throws where there is no `process`
  pub development : Outcome Bool
  pub cache_buster : Text
  pub answers : List Request → Request → Outcome (Unit {0})
  pub responds : List Request → Request → Outcome Response

-- The static fields of SSHClient, `wasmInstance` of TransportManager, and the requests so far.
pub record Loader : Type 0 where
  pub initialized : Bool
  pub has_instance : Bool
  pub manager_set : Bool
  pub requests : List Request

abbrev pub Load {ℓ} : Type ℓ → Type ℓ
Load A = Program Loader A

-- `typeof process !== 'undefined' && process.env?.NODE_ENV === 'development'`
abbrev pub is_development : Outcome Bool → Bool
is_development (resolved b) = b
is_development (rejected e) = false

-- `if (!b) throw new Error(…)`
abbrev pub require : Bool → Text → Load (Unit {0})
require true message = pure tt
require false message = throw (plain_error message)

abbrev pub go_missing : Text → Text
go_missing path =
    codes "Go runtime not loaded. Failed to load wasm_exec.js from " ++ (path ++ codes ".")

abbrev pub wasm_not_found : Text → Text
wasm_not_found path =
    codes "WASM file not found at "
    ++ (path ++ codes ". Please ensure sshclient.wasm is in your public directory.")

abbrev pub exec_not_found : Text → Text
exec_not_found path =
    codes "wasm_exec.js not found at "
    ++ (path ++ codes ". Please ensure wasm_exec.js is in your public directory.")

abbrev pub fetch_failed : Response → Text
fetch_failed r = codes "Failed to fetch WASM file: " ++ r.status

abbrev pub instance_missing : Text
instance_missing =
    codes "Failed to initialize WASM module - SSHClient not found on window. "
    ++ codes "The WASM module may not have loaded correctly."

-- The rejection of `initialize` for what was thrown in it.
abbrev pub initialization_failed : Thrown → Thrown
initialization_failed (ssh_error k message expected got) =
    plain_error (codes "SSHClient initialization failed: " ++ message)
initialization_failed (plain_error message) =
    plain_error (codes "SSHClient initialization failed: " ++ message)
initialization_failed e = plain_error (codes "SSHClient initialization failed with unknown error")

module _ (page : Page) where
  abbrev pub ask : Request → Load (Unit {0})
  ask k l = (page.answers l.requests k, record l { requests = l.requests ++ (k ∷ []) })

  abbrev pub fetch : Request → Load Response
  fetch k l = (page.responds l.requests k, record l { requests = l.requests ++ (k ∷ []) })

  -- `testFetch`: a HEAD request that fails counts as not available.
  abbrev pub test_fetch : Text → Load Bool
  test_fetch url = catching (fetch (head url) >>= λ r. pure r.ok) (λ e. pure false)

  unfoldable pub check_assets : AssetPaths → Load (Unit {0})
  check_assets paths = do
    wasm_available ← test_fetch paths.wasm_path
    exec_available ← test_fetch paths.wasm_exec_path
    require wasm_available (wasm_not_found paths.wasm_path)
    require exec_available (exec_not_found paths.wasm_exec_path)

  abbrev pub check_if : Bool → AssetPaths → Load (Unit {0})
  check_if true paths = check_assets paths
  check_if false paths = pure tt

  abbrev pub load_wasm_executor : Text → Option ℕ → Load (Unit {0})
  load_wasm_executor path timeout l =
      if not page.globals.has_window
      then pure tt l
      else if page.has_go l.requests
      then pure tt l
      else ask (script path (Option.get_or timeout 10000)) l

  abbrev pub require_go : Text → Load (Unit {0})
  require_go path l =
      if page.globals.has_window
      then require (page.has_go l.requests) (go_missing path) l
      else throw (plain_error (codes "window is not defined")) l

  abbrev pub fetch_url : InitializationOptions → Text → Text
  fetch_url options path = if is_set options.cache_busting then path ++ page.cache_buster else path

  abbrev pub take_instance : Load (Unit {0})
  take_instance l = pure tt (record l { has_instance = page.has_client l.requests })

  abbrev pub require_instance : Load (Unit {0})
  require_instance l = require l.has_instance instance_missing l

  abbrev pub set_ready : Load (Unit {0})
  set_ready l = pure tt (record l { manager_set = l.has_instance; initialized = true })

  abbrev pub log_version : Load (Unit {0})
  log_version l =
      if is_development page.development
      then if page.has_version then ask version l else pure tt l
      else pure tt l

  unfoldable pub load : InitializationOptions → Load (Unit {0})
  load options = do
    let paths = get_asset_paths page.globals options
    check_if (is_set options.auto_detect) paths
    load_wasm_executor paths.wasm_exec_path options.timeout
    require_go paths.wasm_exec_path
    ask new_go
    response ← fetch (fetched (fetch_url options paths.wasm_path))
    require response.ok (fetch_failed response)
    ask read_buffer
    ask instantiate
    ask wait
    take_instance
    require_instance
    set_ready
    log_version

  abbrev pub fail : Thrown → Load (Unit {0})
  fail e l = throw (initialization_failed e) (record l { initialized = false })

  unfoldable pub initialize : Text ⊎ InitializationOptions → Load (Unit {0})
  initialize argument l =
      if l.initialized then pure tt l else catching (load (init_options argument)) fail l
