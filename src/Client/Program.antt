-- ===== src/Client/Program.antt =====
-- Asynchronous methods of lib/index.ts and lib/transport.ts as programs: a state is passed along,
-- and each comes to a value or to an exception, as its promise resolves or rejects.
use sshclient_sftp_wasm.Client.Errors.{Thrown}

pub data Outcome {ℓ} (A : Type ℓ) : Type ℓ where
  resolved : A → Outcome A
  rejected : Thrown → Outcome A

abbrev pub Program {ℓ} : Type 0 → Type ℓ → Type ℓ
Program S A = S → Outcome A × S

abbrev pub pure {ℓ} : {S : Type 0} {A : Type ℓ} → A → Program S A
pure a c = (resolved a, c)

-- `throw`
abbrev pub throw {ℓ} : {S : Type 0} {A : Type ℓ} → Thrown → Program S A
throw e c = (rejected e, c)

abbrev pub continue {ℓ κ} :
    {S : Type 0} {A : Type ℓ} {B : Type κ} → (A → Program S B) → Outcome A × S → Outcome B × S
continue f (resolved a, c) = f a c
continue f (rejected e, c) = (rejected e, c)

infixl 5 ◌>>=◌ ◌>>◌
-- `await`, and what follows it
abbrev pub ◌>>=◌ {ℓ κ} :
    {S : Type 0} {A : Type ℓ} {B : Type κ} → Program S A → (A → Program S B) → Program S B
◌>>=◌ m f c = continue f (m c)

abbrev pub ◌>>◌ {ℓ} : {S : Type 0} {B : Type ℓ} → Program S (Unit {0}) → Program S B → Program S B
m >> k = m >>= λ _. k

abbrev pub handle {ℓ} :
    {S : Type 0} {A : Type ℓ} → (Thrown → Program S A) → Outcome A × S → Outcome A × S
handle h (resolved a, c) = (resolved a, c)
handle h (rejected e, c) = h e c

-- `try { m } catch (e) { h }`
abbrev pub catching {ℓ} :
    {S : Type 0} {A : Type ℓ} → Program S A → (Thrown → Program S A) → Program S A
catching m h c = handle h (m c)

abbrev pub settle {ℓ} : {A : Type ℓ} → Outcome A → Outcome (Unit {0}) → Outcome A
settle o (resolved u) = o
settle o (rejected e) = rejected e

-- `try { m } finally { k }`: an exception of `k` takes the place of what `m` came to.
abbrev pub finally {ℓ} :
    {S : Type 0} {A : Type ℓ} → Program S A → Program S (Unit {0}) → Program S A
finally m k c = let (o, c') = m c in let (o', d) = k c' in (settle o o', d)

-- `m.catch(() => {})`
abbrev pub swallow : {S : Type 0} → Program S (Unit {0}) → Program S (Unit {0})
swallow m = catching m λ e. pure tt
