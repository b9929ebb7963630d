-- ===== src/Startup/Asking.antt =====
-- The parts of SSHClient.initialize of lib/index.ts up to its last `await`: they only ask.
use mathlib.Core.Option
use sshclient_sftp_wasm.Base.{
  ℕ, Option, ◌≡◌, refl, ap, ◌∙◌, Bool, true, false, not, List, [], ◌∷◌, ◌++◌, append-nil,
  append_assoc, if◌then◌else◌, Text,
}
use sshclient_sftp_wasm.Client.Errors.{Thrown}
use sshclient_sftp_wasm.Client.Program.{
  Outcome, resolved, rejected, pure, continue, handle, catching, ◌>>=◌,
}
use sshclient_sftp_wasm.Startup.Assets.{AssetPaths}
use sshclient_sftp_wasm.Startup.Initialize.{
  Request, Page, Loader, Load, ask, fetch, check_assets, check_if, load_wasm_executor, require_go,
  require, test_fetch, head, script,
}
use sshclient_sftp_wasm.Startup.Overlap.{requested}

-- Up to its last `await` a call of `initialize` only asks.
pub record Asks {ℓ} {A : Type ℓ} (m : Load A) : Type 0 where
  pub asked : (l : Loader) → (ks : List Request) × ((m l).1 ≡ requested ks l)

pub requested_none : (l : Loader) → l ≡ requested [] l
requested_none l = rw (append-nil l.requests) refl

pub requested-requested :
    (ks js : List Request) (l : Loader) → requested js (requested ks l) ≡ requested (ks ++ js) l
requested-requested ks js l = rw (append_assoc l.requests ks js) refl

Asks-pure {ℓ} : {A : Type ℓ} (a : A) → Asks (pure a)
Asks-pure a = record { asked = λ l. ([], requested_none l) }

module _ {ℓ κ} {A : Type ℓ} {B : Type κ} (f : A → Load B) (k : (a : A) → Asks (f a)) where
  continue-asked :
      (r : Outcome A × Loader) (l : Loader) (ks : List Request)
      → r.1 ≡ requested ks l
      → (js : List Request) × ((continue f r).1 ≡ requested js l)
  continue-asked (rejected e, d) l ks p = (ks, p)
  continue-asked (resolved a, d) l ks p =
      let (js, q) = (k a).asked d in
      (ks ++ js, q ∙ ap (requested js) p ∙ requested-requested ks js l)

  Asks-bind : (m : Load A) → Asks m → Asks (m >>= f)
  Asks-bind m h = record { asked = λ l. let (ks, p) = h.asked l in continue-asked (m l) l ks p }

module _ {ℓ} {A : Type ℓ} (f : Thrown → Load A) (k : (e : Thrown) → Asks (f e)) where
  handle-asked :
      (r : Outcome A × Loader) (l : Loader) (ks : List Request)
      → r.1 ≡ requested ks l
      → (js : List Request) × ((handle f r).1 ≡ requested js l)
  handle-asked (resolved a, d) l ks p = (ks, p)
  handle-asked (rejected e, d) l ks p =
      let (js, q) = (k e).asked d in
      (ks ++ js, q ∙ ap (requested js) p ∙ requested-requested ks js l)

  Asks-catching : (m : Load A) → Asks m → Asks (catching m f)
  Asks-catching m h = record { asked = λ l. let (ks, p) = h.asked l in handle-asked (m l) l ks p }

pub Asks-require : (b : Bool) (message : Text) → Asks (require b message)
Asks-require true message = Asks-pure tt
Asks-require false message = record { asked = λ l. ([], requested_none l) }

module _ (page : Page) where
  pub Asks-ask : (k : Request) → Asks (ask page k)
  Asks-ask k = record { asked = λ l. (k ∷ [], refl) }

  pub Asks-fetch : (k : Request) → Asks (fetch page k)
  Asks-fetch k = record { asked = λ l. (k ∷ [], refl) }

  Asks-test_fetch : (url : Text) → Asks (test_fetch page url)
  Asks-test_fetch url =
      Asks-catching (λ e. pure false) (λ e. Asks-pure false)
        (fetch page (head url) >>= λ r. pure r.ok)
        (Asks-bind (λ r. pure r.ok) (λ r. Asks-pure r.ok) (fetch page (head url))
          (Asks-fetch (head url)))

  pub Asks-check_if : (b : Bool) (paths : AssetPaths) → Asks (check_if page b paths)
  unfolding check_assets
  Asks-check_if false paths = Asks-pure tt
  Asks-check_if true paths =
      Asks-bind _
        (λ w.
          Asks-bind _ (λ x. Asks-bind _ (λ u. Asks-require x _) (require w _) (Asks-require w _))
            (test_fetch page paths.wasm_exec_path) (Asks-test_fetch paths.wasm_exec_path))
        (test_fetch page paths.wasm_path) (Asks-test_fetch paths.wasm_path)

  Asks-if :
      (b : Bool) (m n : Load (Unit {0})) → Asks m → Asks n → Asks (λ l. if b then m l else n l)
  Asks-if true m n h k = record { asked = h.asked }
  Asks-if false m n h k = record { asked = k.asked }

  asked_if :
      (b : Bool) (m n : Load (Unit {0})) (l : Loader)
      → Asks m
      → Asks n
      → (ks : List Request) × ((if b then m l else n l).1 ≡ requested ks l)
  asked_if true m n l h k = h.asked l
  asked_if false m n l h k = k.asked l

  pub Asks-load_wasm_executor :
      (path : Text) (timeout : Option ℕ) → Asks (load_wasm_executor page path timeout)
  Asks-load_wasm_executor path timeout =
      let k = script path (Option.get_or timeout 10000) in
      Asks-if (not page.globals.has_window) (pure tt) _ (Asks-pure tt) (record {
        asked = λ l.
            asked_if (page.has_go l.requests) (pure tt) (ask page k) l (Asks-pure tt) (Asks-ask k);
      })

  pub Asks-require_go : (path : Text) → Asks (require_go page path)
  Asks-require_go path =
      Asks-if page.globals.has_window _ _
        (record { asked = λ l. (Asks-require (page.has_go l.requests) _).asked l })
        (record { asked = λ l. ([], requested_none l) })
