-- ===== src/Client/Transports.antt =====
-- The Map of TransportManager, and what closing a transport does to it.
use sshclient_sftp_wasm.Base.{
  ℕ, ◌≡◌, refl, ◌⊎◌, inl, inr, true, false, Bool-cases, none, some, List, [], ◌∷◌, ◌++◌, Text,
  text_eq, text_eq_refl, text_eq→eq,
}
use sshclient_sftp_wasm.Client.Errors.{Thrown}
use sshclient_sftp_wasm.Client.Program.{Outcome, resolved, rejected}
use sshclient_sftp_wasm.Client.State.{
  Transport, Call, transport_disconnect, wasm_close_transport, wasm_create_transport, Env, Client,
  get, delete, set,
}
use sshclient_sftp_wasm.Client.Manager.{create_transport, close_transport}

pub Outcome-cases {ℓ} :
    {A : Type ℓ} (o : Outcome A) → ((a : A) × (o ≡ resolved a)) ⊎ ((e : Thrown) × (o ≡ rejected e))
Outcome-cases (resolved a) = inl (a, refl)
Outcome-cases (rejected e) = inr (e, refl)

pub get-delete : (i : Text) (ts : List (Text × ℕ)) → get i (delete i ts) ≡ none
unfolding get delete
get-delete i [] = refl
get-delete i ((j, o) ∷ ts) = elim (Bool-cases (text_eq i j)) [
  | inl p ↦ rw p (get-delete i ts)
  | inr p ↦ rw (p, get, p) (get-delete i ts)
]

pub text_eq-trans_false :
    (i k j : Text) → text_eq i k ≡ false → text_eq k j ≡ true → text_eq i j ≡ false
text_eq-trans_false i k j p q = rw (← text_eq→eq k j q) p

pub get-delete_other :
    (i k : Text) (ts : List (Text × ℕ)) → text_eq i k ≡ false → get i (delete k ts) ≡ get i ts
unfolding get delete
get-delete_other i k [] h = refl
get-delete_other i k ((j, o) ∷ ts) h = elim (Bool-cases (text_eq k j)) [
  | inl p ↦ rw (p, text_eq-trans_false i k j h p) (get-delete_other i k ts h)
  | inr p ↦ rw (p, get, get-delete_other i k ts h) refl
]

pub get-set : (i : Text) (o : ℕ) (ts : List (Text × ℕ)) → get i (set i o ts) ≡ some o
unfolding get set
get-set i o ts = rw (text_eq_refl i)

pub get-set_other :
    (i k : Text) (o : ℕ) (ts : List (Text × ℕ))
    → text_eq i k ≡ false
    → get i (set k o ts) ≡ get i ts
unfolding get set
get-set_other i k o ts h = rw h (get-delete_other i k ts h)

-- What the client's cleanup needs of the foreign code: to disconnect a transport and to close it in
-- the WebAssembly module do not fail.
pub record Settles (env : Env) : Type 0 where
  pub disconnects_settle : (h : List Call) (o : ℕ) → env.disconnects h o ≡ resolved tt
  pub closes_settle : (h : List Call) (i : Text) → env.closes h i ≡ resolved tt

abbrev pub created : Transport → Client → Client
created t c = record c {
  calls = c.calls ++ (wasm_create_transport t.id ∷ []);
  attached = (t.object, t.id) ∷ c.attached;
  transports = set t.id t.object c.transports;
}

abbrev pub closed : Text → ℕ → Client → Client
closed i o c = record c {
  calls = (c.calls ++ (transport_disconnect o ∷ [])) ++ (wasm_close_transport i ∷ []);
  transports = delete i c.transports;
}

module _ (env : Env) where
  pub create_transport_ok :
      (t : Transport) (c : Client)
      → c.wasm_set ≡ true
      → env.creates c.calls t.id ≡ resolved tt
      → create_transport env t c ≡ (resolved tt, created t c)
  unfolding create_transport
  create_transport_ok t c p q = rw (p, q)

  pub create_transport_fails :
      (t : Transport) (c : Client) (e : Thrown)
      → c.wasm_set ≡ true
      → env.creates c.calls t.id ≡ rejected e
      → create_transport env t c
        ≡ (rejected e, record c { calls = c.calls ++ (wasm_create_transport t.id ∷ []) })
  unfolding create_transport
  create_transport_fails t c e p q = rw (p, q)

  pub close_transport_found :
      (i : Text) (o : ℕ) (c : Client)
      → Settles env
      → c.wasm_set ≡ true
      → get i c.transports ≡ some o
      → close_transport env i c ≡ (resolved tt, closed i o c)
  unfolding close_transport
  close_transport_found i o c s p q = rw (q, s.disconnects_settle, p, s.closes_settle)
