-- ===== src/Client/Bridge.antt =====
-- The callbacks by which TransportManager of lib/transport.ts joins a transport and the WebAssembly
-- module: `onWrite` and `onClose` for the module, `onData` for the transport.
use sshclient_sftp_wasm.Base.{
  ℕ, ◌≡◌, ◌≢◌, refl, sym, ◌∙◌, append-nil, append_assoc, Bool, true, false, Option, none, some,
  List, [], ◌∷◌, ◌++◌, ◌==◌, arith, if◌then◌else◌, Bytes, Text,
}
use sshclient_sftp_wasm.Client.Errors.{Thrown}
use sshclient_sftp_wasm.Client.Program.{
  Outcome, resolved, rejected, pure, catching, swallow, handle,
}
use sshclient_sftp_wasm.Client.State.{
  Transport, Call, transport_send, transport_error, transport_disconnect, wasm_inject, Env, Client,
  Run, call,
}
use sshclient_sftp_wasm.Client.Manager.{create_transport}
use sshclient_sftp_wasm.Client.Transports.{created, create_transport_ok}

-- The id for which a transport's `onData` injects; a transport that was never created has none.
abbrev pub attached_id : ℕ → List (ℕ × Text) → Option Text
attached_id o [] = none
attached_id o ((p, i) ∷ ts) = if o == p then some i else attached_id o ts

-- The call of `onError` that an outcome of `send` brings.
abbrev pub errors_of : Bool → ℕ → Outcome (Unit {0}) → List Call
errors_of true o (rejected e) = transport_error o e ∷ []
errors_of b o r = []

module _ (env : Env) where
  abbrev pub report : Bool → ℕ → Thrown → Run (Unit {0})
  report true o e c = pure tt (record c { calls = c.calls ++ (transport_error o e ∷ []) })
  report false o e c = pure tt c

  -- `onWrite` of a transport that has an `onError` or not.
  unfoldable pub on_write : Transport → Bool → Bytes → Run (Unit {0})
  on_write t has_on_error bytes =
      catching (call (λ h. env.transmits h t.object bytes) (transport_send t.object bytes))
        (λ e. report has_on_error t.object e)

  -- `onClose`
  unfoldable pub on_close : Transport → Run (Unit {0})
  on_close t = swallow (call (λ h. env.disconnects h t.object) (transport_disconnect t.object))

  abbrev pub inject : Option Text → Bytes → Run (Unit {0})
  inject none bytes = pure tt
  inject (some i) bytes = call (λ h. env.injects h i bytes) (wasm_inject i bytes)

  -- A transport has received bytes and calls its `onData`.
  unfoldable pub on_data : ℕ → Bytes → Run (Unit {0})
  on_data o bytes c = inject (attached_id o c.attached) bytes c

  attached_id-created :
      (t : Transport) (c : Client) → attached_id t.object (created t c).attached ≡ some t.id
  attached_id-created t c = ground arith

  attached_id_other :
      (o : ℕ) (t : Transport) (c : Client)
      → o ≢ t.object
      → attached_id o (created t c).attached ≡ attached_id o c.attached
  attached_id_other o t c h = ground arith

  -- Once the module has created a transport, what that transport receives is injected into the
  -- module under the transport's id, byte for byte and with one call, and what any other transport
  -- receives goes where it went before.
  pub created_routes :
      (t : Transport) (c : Client) (o : ℕ) (bytes : Bytes)
      → c.wasm_set ≡ true
      → env.creates c.calls t.id ≡ resolved tt
      → o ≢ t.object
      → let d = (create_transport env t c).1 in
        ((on_data t.object bytes d).1.calls ≡ d.calls ++ (wasm_inject t.id bytes ∷ []))
        × (on_data o bytes d ≡ inject (attached_id o c.attached) bytes d)
  unfolding on_data
  created_routes t c o bytes p q h =
      rw (create_transport_ok env t c p q)
        (rw (attached_id-created t c) refl, rw (attached_id_other o t c h) refl)

  abbrev sending : Transport → Bytes → Client → Client
  sending t bytes c = record c { calls = c.calls ++ (transport_send t.object bytes ∷ []) }

  reported :
      (b : Bool) (o : ℕ) (r : Outcome (Unit {0})) (d : Client)
      → let (q, e) = handle (λ x. report b o x) (r, d) in
        (q ≡ resolved tt) × (e.calls ≡ d.calls ++ errors_of b o r)
  reported true o (resolved u) d = (refl, sym (append-nil d.calls))
  reported true o (rejected x) d = (refl, refl)
  reported false o (resolved u) d = (refl, sym (append-nil d.calls))
  reported false o (rejected x) d = (refl, sym (append-nil d.calls))

  -- What `onWrite` comes to: the bytes go to the transport in one call; a failure of it is given to
  -- the transport's `onError`, if it has one, and in no case does the module see an exception.
  pub on_write_reports :
      (t : Transport) (has_on_error : Bool) (bytes : Bytes) (c : Client)
      → let o = env.transmits c.calls t.object bytes in
        let (r, d) = on_write t has_on_error bytes c in
        (r ≡ resolved tt)
        × (d.calls ≡ c.calls ++ (transport_send t.object bytes ∷ errors_of has_on_error t.object o))
  unfolding on_write
  on_write_reports t b bytes c =
      let (q, e) = reported b t.object (env.transmits c.calls t.object bytes) (sending t bytes c) in
      (q, e ∙ append_assoc c.calls _ _)
