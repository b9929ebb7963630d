-- ===== src/Startup/Ready.antt =====
-- What SSHClient.initialize of lib/index.ts leaves behind.
use sshclient_sftp_wasm.Base.{◌≡◌, refl, Bool, true, false, [], ◌∷◌, ◌++◌, Text, ◌⊎◌, if◌then◌else◌}
use sshclient_sftp_wasm.Client.Program.{
  Outcome, resolved, rejected, pure, continue, handle, ◌>>=◌, ◌>>◌,
}
use sshclient_sftp_wasm.Startup.Assets.{
  InitializationOptions, AssetPaths, init_options, get_asset_paths, is_set,
}
use sshclient_sftp_wasm.Startup.Initialize.{
  Page, Loader, Load, ask, fetch, initialize, load, fail, check_if, load_wasm_executor, require_go,
  require, fetch_url, take_instance, require_instance, set_ready, log_version, fetched, new_go,
  read_buffer, instantiate, wait, version, is_development, instance_missing, fetch_failed,
}

-- Ready: the WebAssembly module is there, and TransportManager has it too.
pub record IsReady (l : Loader) : Type 0 where
  pub is_initialized : l.initialized ≡ true
  pub instance_there : l.has_instance ≡ true
  pub manager_there : l.manager_set ≡ true

-- How `initialize` ends.
abbrev pub IsSettled : Outcome (Unit {0}) × Loader → Type 0
IsSettled (resolved u, l) = IsReady l
IsSettled (rejected e, l) = l.initialized ≡ false

-- The body ends ready, if it ends well.
abbrev pub EndsReady : Outcome (Unit {0}) × Loader → Type 0
EndsReady (resolved u, l) = IsReady l
EndsReady (rejected e, l) = Unit

pub record Leads (m : Load (Unit {0})) : Type 0 where
  pub leads : (l : Loader) → EndsReady (m l)

continue-EndsReady {ℓ} :
    {A : Type ℓ} (f : A → Load (Unit {0})) (r : Outcome A × Loader)
    → ((a : A) → Leads (f a))
    → EndsReady (continue f r)
continue-EndsReady f (resolved a, l) k = (k a).leads l
continue-EndsReady f (rejected e, l) k = tt

-- Only what comes last matters.
pub Leads-bind {ℓ} :
    {A : Type ℓ} (m : Load A) (f : A → Load (Unit {0})) → ((a : A) → Leads (f a)) → Leads (m >>= f)
Leads-bind m f k = record { leads = λ l. continue-EndsReady f (m l) k }

module _ (page : Page) where
  log_kept : (r : Loader) → IsReady r → EndsReady (log_version page r)
  log_kept r v = go (is_development page.development) page.has_version
    where
      asked :
          (o : Outcome (Unit {0}))
          → EndsReady (o, record r { requests = r.requests ++ (version ∷ []) })
      asked (resolved u) = record {
        is_initialized = v.is_initialized;
        instance_there = v.instance_there;
        manager_there = v.manager_there;
      }
      asked (rejected e) = tt

      go :
          (b d : Bool)
          → EndsReady (if b then if d then ask page version r else pure tt r else pure tt r)
      go true true = asked (page.answers r.requests version)
      go true false = v
      go false d = v

  last_ready :
      (l : Loader) → l.has_instance ≡ true → EndsReady ((set_ready page >> log_version page) l)
  last_ready l p =
      log_kept _ (record { is_initialized = refl; instance_there = p; manager_there = p })

  checked_ready :
      (b : Bool) (l : Loader)
      → l.has_instance ≡ b
      → EndsReady
          (continue (λ u. set_ready page >> log_version page) (require b instance_missing l))
  checked_ready true l p = last_ready l p
  checked_ready false l p = tt

  pub Leads-tail : Leads (require_instance page >> (set_ready page >> log_version page))
  Leads-tail = record { leads = λ l. checked_ready l.has_instance l refl }

  Leads-load : (options : InitializationOptions) → Leads (load page options)
  unfolding load
  Leads-load options =
      Leads-bind (check_if page (is_set options.auto_detect) (paths_of options)) _ λ _.
        Leads-bind (load_wasm_executor page (paths_of options).wasm_exec_path options.timeout) _
          λ _. Leads-bind (require_go page (paths_of options).wasm_exec_path) _ λ _.
            Leads-bind (ask page new_go) _ λ _.
              Leads-bind
                (fetch page (fetched (fetch_url page options (paths_of options).wasm_path))) _
                λ r. Leads-bind (require r.ok (fetch_failed r)) _ λ _.
                  Leads-bind (ask page read_buffer) _ λ _. Leads-bind (ask page instantiate) _ λ _.
                    Leads-bind (ask page wait) _
                      λ _. Leads-bind (take_instance page) _ λ _. Leads-tail
    where
      paths_of : InitializationOptions → AssetPaths
      paths_of o = get_asset_paths page.globals o

  pub handled : (r : Outcome (Unit {0}) × Loader) → EndsReady r → IsSettled (handle (fail page) r)
  handled (resolved u, l) h = h
  handled (rejected e, l) h = refl

  -- Whatever the page answers, from a client that has the module if it is initialized: where `initialize` resolves, the client is initialized, and both it
  -- and TransportManager have the WebAssembly module; where it rejects, it is not initialized.
  pub initialize-IsSettled :
      (argument : Text ⊎ InitializationOptions) (l : Loader)
      → (l.initialized ≡ true → IsReady l)
      → IsSettled (initialize page argument l)
  unfolding initialize
  initialize-IsSettled argument l v = go l.initialized refl
    where
      go :
          (b : Bool)
          → l.initialized ≡ b
          → IsSettled
              (if b then pure tt l else handle (fail page) (load page (init_options argument) l))
      go true p = v p
      go false p =
          handled (load page (init_options argument) l)
            ((Leads-load (init_options argument)).leads l)
