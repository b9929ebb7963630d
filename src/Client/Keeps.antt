-- ===== src/Client/Keeps.antt =====
-- Programs over the client's state of lib/index.ts that ask for no handshake without a pin.
use sshclient_sftp_wasm.Base.{◌≡◌, refl, Bool, true, false, List, [], ◌∷◌, ◌++◌, All, if◌then◌else◌}
use sshclient_sftp_wasm.Client.Errors.{Thrown}
use sshclient_sftp_wasm.Client.Program.{
  Outcome, resolved, rejected, pure, throw, ◌>>=◌, continue, handle, catching, finally,
}
use sshclient_sftp_wasm.Client.State.{Call, wasm_connect, Client, Run, call}
use sshclient_sftp_wasm.Client.Api.{is_pinned}

-- A handshake that authenticates has a pin.
abbrev pub IsGuarded : Call → Type 0
IsGuarded (wasm_connect options i) = is_pinned options.host_key_pin ≡ true
IsGuarded k = Unit

pub record Guarded (c : Client) : Type 0 where
  pub guarded : All IsGuarded c.calls

pub record Keeps {ℓ} {A : Type ℓ} (m : Run A) : Type 0 where
  pub keeps : (c : Client) → Guarded c → Guarded (m c).1

All-snoc :
    (ks : List Call) (k : Call) → All IsGuarded ks → IsGuarded k → All IsGuarded (ks ++ (k ∷ []))
All-snoc [] k h g = (g, tt)
All-snoc (j ∷ ks) k h g = (h.0, All-snoc ks k h.1 g)

pub Keeps-pure {ℓ} : {A : Type ℓ} (a : A) → Keeps (pure a)
Keeps-pure a = record { keeps = λ c h. h }

pub Keeps-throw {ℓ} : {A : Type ℓ} (e : Thrown) → Keeps (throw {A = A} e)
Keeps-throw e = record { keeps = λ c h. h }

pub Keeps-call {ℓ} :
    {A : Type ℓ} (reply : List Call → Outcome A) (k : Call) → IsGuarded k → Keeps (call reply k)
Keeps-call reply k g = record { keeps = λ c h. record { guarded = All-snoc c.calls k h.guarded g } }

pub continue-Guarded {ℓ κ} :
    {A : Type ℓ} {B : Type κ} (f : A → Run B) (r : Outcome A × Client)
    → ((a : A) → Keeps (f a))
    → Guarded r.1
    → Guarded (continue f r).1
continue-Guarded f (resolved a, c) k h = (k a).keeps c h
continue-Guarded f (rejected e, c) k h = h

pub Keeps-bind {ℓ κ} :
    {A : Type ℓ} {B : Type κ} (m : Run A) (f : A → Run B)
    → Keeps m
    → ((a : A) → Keeps (f a))
    → Keeps (m >>= f)
Keeps-bind m f k l = record { keeps = λ c h. continue-Guarded f (m c) l (k.keeps c h) }

pub handle-Guarded {ℓ} :
    {A : Type ℓ} (f : Thrown → Run A) (r : Outcome A × Client)
    → ((e : Thrown) → Keeps (f e))
    → Guarded r.1
    → Guarded (handle f r).1
handle-Guarded f (resolved a, c) k h = h
handle-Guarded f (rejected e, c) k h = (k e).keeps c h

pub Keeps-catching {ℓ} :
    {A : Type ℓ} (m : Run A) (f : Thrown → Run A)
    → Keeps m
    → ((e : Thrown) → Keeps (f e))
    → Keeps (catching m f)
Keeps-catching m f k l = record { keeps = λ c h. handle-Guarded f (m c) l (k.keeps c h) }

pub Keeps-finally {ℓ} :
    {A : Type ℓ} (m : Run A) (f : Run (Unit {0})) → Keeps m → Keeps f → Keeps (finally m f)
Keeps-finally m f k l = record { keeps = λ c h. l.keeps (m c).1 (k.keeps c h) }

pub Keeps-if {ℓ} :
    {A : Type ℓ} (b : Bool) (m n : Run A) (c : Client)
    → (b ≡ true → Keeps m)
    → Keeps n
    → Guarded c
    → Guarded (if b then m c else n c).1
Keeps-if true m n c k l h = (k refl).keeps c h
Keeps-if false m n c k l h = l.keeps c h
