-- ===== src/Startup/Unfolding.antt =====
-- SSHClient.initialize of lib/index.ts as one of the overlapping calls.
use sshclient_sftp_wasm.Base.{
  ℕ, suc, ◌≡◌, refl, ap, ◌∙◌, ◌⊎◌, inl, inr, Bool, true, false, List, [], ◌∷◌, ◌++◌, each,
  if◌then◌else◌, Text,
}
use sshclient_sftp_wasm.Client.Errors.{Thrown}
use sshclient_sftp_wasm.Client.Program.{Outcome, resolved, rejected, pure, continue, handle, ◌>>=◌}
use sshclient_sftp_wasm.Startup.Assets.{
  InitializationOptions, init_options, get_asset_paths, is_set,
}
use sshclient_sftp_wasm.Startup.Initialize.{
  Request, Page, Loader, Load, ask, fetch, initialize, load, fail, check_if, load_wasm_executor,
  require_go, require, fetch_url, fetched, new_go, read_buffer, instantiate, wait, fetch_failed,
}
use sshclient_sftp_wasm.Startup.Overlap.{
  LoadMoment, starts, waited, asks, throws, requested, finish, load_step,
}
use sshclient_sftp_wasm.Startup.Asking.{
  Asks, requested_none, requested-requested, Asks-require, Asks-ask, Asks-fetch, Asks-check_if,
  Asks-load_wasm_executor, Asks-require_go,
}

module _ (page : Page) where
  -- A call comes to its last `await` and finishes behind that, or it throws before.
  abbrev Forms : Loader → Outcome (Unit {0}) × Loader → Type 0
  Forms l r =
      (ks : List Request) × (((e : Thrown) × (r ≡ (rejected e, requested ks l)))
        ⊎ (r ≡ finish page (requested ks l)))

  record Unfolds (m : Load (Unit {0})) : Type 0 where
    unfolds : (l : Loader) → Forms l (m l)

  continue-Forms {ℓ} :
      {A : Type ℓ} (f : A → Load (Unit {0})) (k : (a : A) → Unfolds (f a)) (r : Outcome A × Loader)
      (l : Loader) (ks : List Request)
      → r.1 ≡ requested ks l
      → Forms l (continue f r)
  continue-Forms f k (rejected e, d) l ks p = (ks, inl (e, ap (λ x. (rejected e, x)) p))
  continue-Forms f k (resolved a, d) l ks p =
      let (js, forms) = (k a).unfolds d in
      let same = ap (requested js) p ∙ requested-requested ks js l in
      (
        ks ++ js,
        elim forms [
          | inl x ↦ inl (x.0, x.1 ∙ ap (λ y. (rejected x.0, y)) same)
          | inr q ↦ inr (q ∙ ap (finish page) same)
        ],
      )

  Unfolds-bind {ℓ} :
      {A : Type ℓ} (m : Load A) (f : A → Load (Unit {0}))
      → Asks m
      → ((a : A) → Unfolds (f a))
      → Unfolds (m >>= f)
  Unfolds-bind m f h k = record {
    unfolds = λ l. let (ks, p) = h.asked l in continue-Forms f k (m l) l ks p;
  }

  Unfolds-finish : Unfolds (finish page)
  Unfolds-finish = record { unfolds = λ l. ([], inr (ap (finish page) (requested_none l))) }

  Unfolds-load : (options : InitializationOptions) → Unfolds (load page options)
  unfolding load
  Unfolds-load options =
      let paths = get_asset_paths page.globals options in
      Unfolds-bind (check_if page (is_set options.auto_detect) paths) _ (Asks-check_if page _ paths)
        λ _.
          Unfolds-bind (load_wasm_executor page paths.wasm_exec_path options.timeout) _
            (Asks-load_wasm_executor page _ options.timeout)
            λ _. Unfolds-bind (require_go page paths.wasm_exec_path) _ (Asks-require_go page _) λ _.
              Unfolds-bind (ask page new_go) _ (Asks-ask page new_go) λ _.
                Unfolds-bind (fetch page (fetched (fetch_url page options paths.wasm_path))) _
                  (Asks-fetch page _)
                  λ r. Unfolds-bind (require r.ok (fetch_failed r)) _ (Asks-require r.ok _) λ _.
                    Unfolds-bind (ask page read_buffer) _ (Asks-ask page read_buffer) λ _.
                      Unfolds-bind (ask page instantiate) _ (Asks-ask page instantiate)
                        λ _. Unfolds-bind (ask page wait) _ (Asks-ask page wait) λ _. Unfolds-finish

  abbrev pub asking : List Request → List LoadMoment → List LoadMoment
  asking [] ms = ms
  asking (k ∷ ks) ms = asks k ∷ asking ks ms

  each-asking :
      (ks : List Request) (ms : List LoadMoment) (l : Loader) (n : ℕ)
      → each (load_step page) (asking ks ms) (record { loader = l; pending = suc n })
        ≡ each (load_step page) ms (record { loader = requested ks l; pending = suc n })
  unfolding load_step
  each-asking [] ms l n =
      ap (λ x. each (load_step page) ms (record { loader = x; pending = suc n })) (requested_none l)
  each-asking (k ∷ ks) ms l n =
      each-asking ks ms (requested (k ∷ []) l) n
      ∙ ap (λ x. each (load_step page) ms (record { loader = x; pending = suc n }))
          (requested-requested (k ∷ []) ks l)

  -- What a call comes to from where it passed the test of `initialized`.
  caught-Forms :
      (l : Loader) (r : Outcome (Unit {0}) × Loader)
      → Forms l r
      → (ks : List Request) × (m : LoadMoment) × (each
            (load_step page)
            (asking ks (m ∷ []))
            (record { loader = l; pending = 1 })
          ≡ record { loader = (handle (fail page) r).1; pending = 0 })
  unfolding load_step
  caught-Forms l r (ks, inl (e, q)) = (ks, throws e, each-asking ks (throws e ∷ []) l 0 ∙ rw q refl)
  caught-Forms l r (ks, inr q) = (ks, waited, each-asking ks (waited ∷ []) l 0 ∙ rw q refl)

  -- Where no call of `initialize` is pending, a call that no other overlaps is a run of these moments:
  -- it starts, asks for one thing after the other, and ends by one moment; the run leaves the static
  -- fields and the requests as `initialize` does, and no call pending.
  pub initialize_is_run :
      (argument : Text ⊎ InitializationOptions) (l : Loader)
      → (ks : List Request) × (m : LoadMoment) × (each
            (load_step page)
            (starts ∷ asking ks (m ∷ []))
            (record { loader = l; pending = 0 })
          ≡ record { loader = (initialize page argument l).1; pending = 0 })
  unfolding load_step initialize
  initialize_is_run argument l = go l.initialized
    where
      go :
          (b : Bool)
          → (ks : List Request) × (m : LoadMoment) × (each (load_step page) (asking ks (m ∷ [])) (
                if b
                then record { loader = l; pending = 0 }
                else record { loader = l; pending = 1 })
              ≡ record {
                loader =
                    (if b
                      then pure tt l
                      else handle (fail page) (load page (init_options argument) l)).1;
                pending = 0;
              })
      go true = ([], waited, refl)
      go false =
          caught-Forms l (load page (init_options argument) l)
            ((Unfolds-load (init_options argument)).unfolds l)
