-- ===== src/Tests/Startup.antt =====
-- SSHClient.initialize of lib/index.ts at concrete inputs.
use sshclient_sftp_wasm.Base.{◌≡◌, refl, true, false, none, [], ◌∷◌, inr, codes, each}
use sshclient_sftp_wasm.Client.Errors.{plain_error}
use sshclient_sftp_wasm.Client.Program.{resolved, rejected}
use sshclient_sftp_wasm.Startup.Assets.{
  Globals, InitializationOptions, init_options, get_asset_paths, detect_framework,
}
use sshclient_sftp_wasm.Startup.Initialize.{head, Page, Loader, initialize, initialization_failed}
use sshclient_sftp_wasm.Startup.Entries.{
  busting, initialize_next, initialize_vite, initialize_for_nextjs, initialize_for_vite,
  initialize_with_defaults, entries_initialize,
}
use sshclient_sftp_wasm.Startup.Ready.{IsSettled, initialize-IsSettled}
use sshclient_sftp_wasm.Startup.Overlap.{starts, waited, throws, load_step}
use sshclient_sftp_wasm.Startup.Together.{IsSound, overlapping_loads_ready}
use sshclient_sftp_wasm.Startup.Missing.{complaint, initialize_missing}

abbrev globals : Globals
globals = record {
  has_window = true;
  has_next_data = false;
  has_next = true;
  has_vite_preamble = false;
  has_webpack_require = false;
}

abbrev no_options : InitializationOptions
no_options = record {
  wasm_path = none;
  wasm_exec_path = none;
  auto_detect = none;
  public_dir = none;
  cache_busting = none;
  timeout = none;
}

-- A page on which every file is missing.
abbrev empty_page : Page
empty_page = record {
  globals = globals;
  has_go = λ h. true;
  has_client = λ h. true;
  has_version = true;
  development = resolved true;
  cache_buster = codes "?v=1&t=1";
  answers = λ h k. resolved tt;
  responds = λ h k. resolved (record { ok = false; status = codes "404 Not Found" });
}

abbrev full_page : Page
full_page = record empty_page {
  responds = λ h k. resolved (record { ok = true; status = codes "200 OK" });
}

abbrev loader : Loader
loader = record { initialized = false; has_instance = false; manager_set = false; requests = [] }

initialize-IsSettled_example : IsSettled (initialize full_page (inr no_options) loader)
initialize-IsSettled_example = initialize-IsSettled full_page (inr no_options) loader (λ e. cc)

initialize_missing_example :
    let paths = get_asset_paths globals no_options in
    let (o, d) = initialize empty_page (inr no_options) loader in
    (o ≡ rejected (initialization_failed (plain_error (complaint false paths))))
    × (d.requests ≡ head paths.wasm_path ∷ head paths.wasm_exec_path ∷ [])
    × (d.initialized ≡ false)
unfolding init_options get_asset_paths detect_framework
initialize_missing_example = initialize_missing empty_page (inr no_options) loader refl refl refl

entries_initialize_example :
    (initialize_next full_page no_options loader
      ≡ initialize full_page (inr (busting true no_options)) loader)
    × (initialize_vite full_page false no_options loader
        ≡ initialize full_page (inr (busting false no_options)) loader)
    × (initialize_for_nextjs full_page no_options loader
        ≡ initialize full_page (inr (busting true no_options)) loader)
    × (initialize_for_vite full_page false no_options loader
        ≡ initialize full_page (inr (busting false no_options)) loader)
    × (initialize_with_defaults full_page no_options loader
        ≡ initialize full_page (inr (busting true no_options)) loader)
entries_initialize_example = entries_initialize full_page false no_options loader

-- Two calls overlap; the first one settles well, and the second one throws.
overlapping_loads_ready_example :
    IsSound
      (each
        (load_step full_page)
        (starts ∷ starts ∷ waited ∷ throws (plain_error (codes "network")) ∷ [])
        (record { loader = loader; pending = 0 })).loader
overlapping_loads_ready_example =
    overlapping_loads_ready full_page
      (starts ∷ starts ∷ waited ∷ throws (plain_error (codes "network")) ∷ [])
      (record { loader = loader; pending = 0 }) (λ e. cc)

-- The second call's failure takes `initialized` back, though the module is there.
late_failure :
    let d =
      (each
        (load_step full_page)
        (starts ∷ starts ∷ waited ∷ throws (plain_error (codes "network")) ∷ [])
        (record { loader = loader; pending = 0 })).loader in
    (d.initialized ≡ false) × (d.has_instance ≡ true) × (d.manager_set ≡ true)
unfolding load_step
late_failure = (refl, refl, refl)
