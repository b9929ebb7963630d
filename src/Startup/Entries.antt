-- ===== src/Startup/Entries.antt =====
-- The entry points that call SSHClient.initialize with defaults of their own: initializeSSHClient of
-- lib/next.ts and lib/vite.ts, and SSHClientHelpers of lib/index.ts.
use mathlib.Core.Option
use sshclient_sftp_wasm.Base.{
  ◌≡◌, refl, sym, ap, ◌∙◌, ◌⊎◌, Bool, true, Option, none, some, codes, Text, inr, if◌then◌else◌,
}
use sshclient_sftp_wasm.Startup.Assets.{
  Globals, InitializationOptions, init_options, get_asset_paths, get_asset_paths_lem, public_paths,
  or_text, default_dir,
}
use sshclient_sftp_wasm.Startup.Initialize.{Page, Loader, Load, initialize, load, fail}
use sshclient_sftp_wasm.Client.Program.{
  Outcome, resolved, rejected, pure, continue, catching, ◌>>=◌,
}

abbrev over {ℓ} : {A : Type ℓ} → Option A → Option A → Option A
over default none = default
over default (some a) = some a

-- `{ ...defaults, ...options }`, for options that have no key whose value is undefined.
abbrev pub spread_options : InitializationOptions → InitializationOptions → InitializationOptions
spread_options defaults o = record {
  wasm_path = over defaults.wasm_path o.wasm_path;
  wasm_exec_path = over defaults.wasm_exec_path o.wasm_exec_path;
  auto_detect = over defaults.auto_detect o.auto_detect;
  public_dir = over defaults.public_dir o.public_dir;
  cache_busting = over defaults.cache_busting o.cache_busting;
  timeout = over defaults.timeout o.timeout;
}

-- `{ publicDir: '/', autoDetect: true, cacheBusting }`
abbrev pub page_defaults : Bool → InitializationOptions
page_defaults cache_busting = record {
  wasm_path = none;
  wasm_exec_path = none;
  auto_detect = some true;
  public_dir = some (codes "/");
  cache_busting = some cache_busting;
  timeout = none;
}

abbrev pub timed_defaults : Bool → InitializationOptions
timed_defaults cache_busting = record (page_defaults cache_busting) { timeout = some 10000 }

over-none {ℓ} : {A : Type ℓ} (o : Option A) → over none o ≡ o
over-none none = refl
over-none (some a) = refl

over-get_or {ℓ} :
    {A : Type ℓ} (default fallback : A) (o : Option A)
    → Option.get_or (over (some default) o) fallback ≡ Option.get_or o default
over-get_or default fallback none = refl
over-get_or default fallback (some a) = refl

-- Options that give the same paths whatever the framework do so.
paths_same :
    (g : Globals) (x y : InitializationOptions)
    → public_paths (or_text x.public_dir default_dir) x
      ≡ public_paths (or_text y.public_dir default_dir) y
    → get_asset_paths g x ≡ get_asset_paths g y
paths_same g x y e = get_asset_paths_lem g x ∙ e ∙ sym (get_asset_paths_lem g y)

-- The options with a default for cache busting alone.
abbrev pub busting : Bool → InitializationOptions → InitializationOptions
busting default o = record o { cache_busting = some (Option.get_or o.cache_busting default) }

module _ (page : Page) where
  -- `process.env.NODE_ENV === 'development'`, with no guard.
  abbrev pub read_development : Load Bool
  read_development l = (page.development, l)

  -- lib/next.ts
  unfoldable pub initialize_next : InitializationOptions → Load (Unit {0})
  unfolding initialize
  initialize_next o = do
    development ← read_development
    initialize page (inr (spread_options (timed_defaults development) o))

  -- lib/vite.ts, where `is_dev` is what is found of `import.meta.env.DEV`.
  unfoldable pub initialize_vite : Bool → InitializationOptions → Load (Unit {0})
  unfolding initialize
  initialize_vite is_dev o = initialize page (inr (spread_options (timed_defaults is_dev) o))

  -- SSHClientHelpers
  unfoldable pub initialize_for_nextjs : InitializationOptions → Load (Unit {0})
  unfolding initialize
  initialize_for_nextjs o = do
    development ← read_development
    initialize page (inr (spread_options (page_defaults development) o))

  unfoldable pub initialize_for_vite : Bool → InitializationOptions → Load (Unit {0})
  unfolding initialize
  initialize_for_vite is_dev o = initialize page (inr (spread_options (page_defaults is_dev) o))

  unfoldable pub initialize_with_defaults : InitializationOptions → Load (Unit {0})
  unfolding initialize
  initialize_with_defaults o = initialize page (inr (spread_options (timed_defaults true) o))

  initialize_by :
      (a b : Text ⊎ InitializationOptions) (l : Loader)
      → load page (init_options a) ≡ load page (init_options b)
      → initialize page a l ≡ initialize page b l
  unfolding initialize
  initialize_by a b l e = ap (λ m. if l.initialized then pure tt l else catching m (fail page) l) e

  -- The default public directory is the one that `getAssetPaths` falls back on.
  dir_same :
      (x : InitializationOptions) (dir : Option Text)
      → load page (record x { public_dir = over (some (codes "/")) dir })
        ≡ load page (record x { public_dir = dir })
  unfolding load
  dir_same x none =
      rw
        (paths_same page.globals (record x { public_dir = some (codes "/") })
          (record x { public_dir = none }) refl)
        refl
  dir_same x (some dir) = refl

  page_same :
      (b : Bool) (o : InitializationOptions) (l : Loader)
      → initialize page (inr (spread_options (page_defaults b) o)) l
        ≡ initialize page (inr (busting b o)) l
  unfolding init_options
  page_same b o l = initialize_by _ _ l (
      ap (load page) (
        rw
          (
            over-none o.wasm_path,
            over-none o.wasm_exec_path,
            over-none o.timeout,
            over-get_or true true o.auto_detect,
            over-get_or b true o.cache_busting,
          )
          refl)
      ∙ dir_same (init_options (inr (busting b o))) o.public_dir)

  timed_same :
      (b : Bool) (o : InitializationOptions) (l : Loader)
      → initialize page (inr (spread_options (timed_defaults b) o)) l
        ≡ initialize page (inr (busting b o)) l
  unfolding init_options
  timed_same b o l = initialize_by _ _ l (
      ap (load page) (
        rw
          (
            over-none o.wasm_path,
            over-none o.wasm_exec_path,
            over-get_or 10000 10000 o.timeout,
            over-get_or true true o.auto_detect,
            over-get_or b true o.cache_busting,
          )
          refl)
      ∙ dir_same (init_options (inr (busting b o))) o.public_dir)

  -- What an entry point for Next.js comes to, where it has read the environment or failed to.
  read_same :
      (f g : Bool → Load (Unit {0})) (r : Outcome Bool) (l : Loader)
      → ((b : Bool) → f b l ≡ g b l)
      → continue f (r, l) ≡ continue g (r, l)
  read_same f g (resolved b) l h = h b
  read_same f g (rejected e) l h = refl

  -- Every entry point is SSHClient.initialize with a default for cache busting alone: for Next.js
  -- whether the environment is one of development, for Vite what is found of the same, and true for
  -- initializeWithDefaults; the timeout of the script, the detection and the directory that it comes
  -- to are those of `initialize`. Where reading the environment throws, the two for Next.js reject
  -- with that and do nothing.
  pub entries_initialize :
      (is_dev : Bool) (o : InitializationOptions) (l : Loader)
      → let by_environment : Load (Unit {0}) =
          read_development >>= λ b. initialize page (inr (busting b o)) in
        (initialize_next o l ≡ by_environment l)
        × (initialize_vite is_dev o l ≡ initialize page (inr (busting is_dev o)) l)
        × (initialize_for_nextjs o l ≡ by_environment l)
        × (initialize_for_vite is_dev o l ≡ initialize page (inr (busting is_dev o)) l)
        × (initialize_with_defaults o l ≡ initialize page (inr (busting true o)) l)
  unfolding initialize_next initialize_vite initialize_for_nextjs initialize_for_vite
      initialize_with_defaults
  entries_initialize is_dev o l = (
    read_same _ _ page.development l (λ b. timed_same b o l),
    timed_same is_dev o l,
    read_same _ _ page.development l (λ b. page_same b o l),
    page_same is_dev o l,
    timed_same true o l,
  )
