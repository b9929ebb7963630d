-- ===== src/Startup/Missing.antt =====
-- That SSHClient.initialize of lib/index.ts looks before it loads.
use sshclient_sftp_wasm.Base.{
  ◌≡◌, refl, ap, Bool, true, false, ◌&&◌, [], ◌∷◌, ◌++◌, Text, ◌⊎◌, if◌then◌else◌, append_assoc,
}
use sshclient_sftp_wasm.Client.Errors.{Thrown, plain_error}
use sshclient_sftp_wasm.Client.Program.{Outcome, resolved, rejected, pure, continue, handle}
use sshclient_sftp_wasm.Startup.Assets.{
  AssetPaths, InitializationOptions, init_options, get_asset_paths, is_set,
}
use sshclient_sftp_wasm.Startup.Initialize.{
  Request, head, Response, Page, Loader, test_fetch, require, check_assets, load, initialize, fail,
  initialization_failed, wasm_not_found, exec_not_found,
}

-- Whether a HEAD request found its file.
abbrev pub available : Outcome Response → Bool
available (resolved r) = r.ok
available (rejected e) = false

-- The complaint about the first file that is missing.
abbrev pub complaint : Bool → AssetPaths → Text
complaint true paths = exec_not_found paths.wasm_exec_path
complaint false paths = wasm_not_found paths.wasm_path

module _ (page : Page) where
  abbrev pub after : Request → Loader → Loader
  after k l = record l { requests = l.requests ++ (k ∷ []) }

  test_fetch_lem :
      (url : Text) (l : Loader)
      → test_fetch page url l
        ≡ (resolved (available (page.responds l.requests (head url))), after (head url) l)
  test_fetch_lem url l = go (page.responds l.requests (head url)) (after (head url) l)
    where
      go :
          (o : Outcome Response) (d : Loader)
          → Path
              (Outcome Bool × Loader)
              (handle (λ e. pure false) (continue (λ r. pure r.ok) (o, d)))
              (resolved (available o), d)
      go (resolved r) d = refl
      go (rejected e) d = refl

  abbrev pub looked : AssetPaths → Loader → Loader
  looked paths l = after (head paths.wasm_exec_path) (after (head paths.wasm_path) l)

  both_required :
      (a b : Bool) (paths : AssetPaths) (d : Loader)
      → (a && b) ≡ false
      → continue
          (λ u. require b (exec_not_found paths.wasm_exec_path))
          (require a (wasm_not_found paths.wasm_path) d)
        ≡ (rejected (plain_error (complaint a paths)), d)
  both_required true true paths d h = cc
  both_required true false paths d h = refl
  both_required false b paths d h = refl

  -- What the two requests find.
  abbrev pub wasm_there : AssetPaths → Loader → Bool
  wasm_there paths l = available (page.responds l.requests (head paths.wasm_path))

  abbrev pub exec_there : AssetPaths → Loader → Bool
  exec_there paths l =
      available
        (page.responds (after (head paths.wasm_path) l).requests (head paths.wasm_exec_path))

  check_assets_missing :
      (paths : AssetPaths) (l : Loader)
      → (wasm_there paths l && exec_there paths l) ≡ false
      → check_assets page paths l
        ≡ (rejected (plain_error (complaint (wasm_there paths l) paths)), looked paths l)
  unfolding check_assets
  check_assets_missing paths l h =
      rw
        (
          test_fetch_lem paths.wasm_path l,
          test_fetch_lem paths.wasm_exec_path (after (head paths.wasm_path) l),
        )
        (both_required (wasm_there paths l) (exec_there paths l) paths (looked paths l) h)

  load_missing :
      (options : InitializationOptions) (l : Loader) (e : Thrown) (d : Loader)
      → is_set options.auto_detect ≡ true
      → check_assets page (get_asset_paths page.globals options) l ≡ (rejected e, d)
      → load page options l ≡ (rejected e, d)
  unfolding load
  load_missing options l e d p q = rw (p, q)

  initialize_fresh :
      (argument : Text ⊎ InitializationOptions) (l : Loader)
      → l.initialized ≡ false
      → initialize page argument l ≡ handle (fail page) (load page (init_options argument) l)
  unfolding initialize
  initialize_fresh argument l i =
      ap (λ b. if b then pure tt l else handle (fail page) (load page (init_options argument) l)) i

  -- With automatic detection, if either file is not there, `initialize` asks for nothing but whether
  -- the two are there: no script is loaded and no module is fetched, and it rejects with an error
  -- that names the first missing file.
  pub initialize_missing :
      (argument : Text ⊎ InitializationOptions) (l : Loader)
      → l.initialized ≡ false
      → is_set (init_options argument).auto_detect ≡ true
      → let paths = get_asset_paths page.globals (init_options argument) in
        (wasm_there paths l && exec_there paths l) ≡ false
        → let (o, d) = initialize page argument l in
          (o
            ≡ rejected (initialization_failed (plain_error (complaint (wasm_there paths l) paths))))
          × (d.requests ≡ l.requests ++ (head paths.wasm_path ∷ head paths.wasm_exec_path ∷ []))
          × (d.initialized ≡ false)
  initialize_missing argument l i p h =
      rw
        (
          initialize_fresh argument l i,
          load_missing (init_options argument) l _ _ p
              (check_assets_missing (get_asset_paths page.globals (init_options argument)) l h),
        )
        (refl, append_assoc l.requests _ _, refl)
