-- ===== src/Client/Manager.antt =====
-- TransportManager of lib/transport.ts.
use sshclient_sftp_wasm.Base.{
  ℕ, ◌≡◌, refl, Bool, Option, none, some, ◌∷◌, codes, if◌then◌else◌, Text,
}
use sshclient_sftp_wasm.Client.Errors.{plain_error}
use sshclient_sftp_wasm.Client.Program.{pure, throw, ◌>>◌}
use sshclient_sftp_wasm.Client.State.{
  Transport, wasm_create_transport, wasm_close_transport, transport_disconnect, Env, Run, call, get,
  set, delete,
}

-- `getInstance`, where `made` is the manager that the constructor would make: the result, and the
-- static field behind it.
unfoldable get_instance : ℕ → Option ℕ → ℕ × Option ℕ
get_instance made none = (made, some made)
get_instance made (some m) = (m, some m)

-- There is one manager: every later call has the result of the first one.
get_instance_lem :
    (made later : ℕ) (o : Option ℕ)
    → (get_instance later (get_instance made o).1).0 ≡ (get_instance made o).0
unfolding get_instance
get_instance_lem made later none = refl
get_instance_lem made later (some m) = refl

-- `setWasmInstance`, with an instance or with nothing.
abbrev pub set_wasm_instance : Bool → Run (Unit {0})
set_wasm_instance there c = pure tt (record c { wasm_set = there })

-- The transport's `onData` injects into the WebAssembly module, and the Map holds the transport.
abbrev pub register : Transport → Run (Unit {0})
register t c = pure tt (record c {
  attached = (t.object, t.id) ∷ c.attached;
  transports = set t.id t.object c.transports;
})

abbrev pub unregister : Text → Run (Unit {0})
unregister i c = pure tt (record c { transports = delete i c.transports })

module _ (env : Env) where
  unfoldable pub create_transport : Transport → Run (Unit {0})
  create_transport t c =
      if c.wasm_set
      then (do call (λ h. env.creates h t.id) (wasm_create_transport t.id); register t) c
      else throw (plain_error (codes "WASM instance not set")) c

  abbrev pub close_wasm : Text → Run (Unit {0})
  close_wasm i c =
      if c.wasm_set then call (λ h. env.closes h i) (wasm_close_transport i) c else pure tt c

  abbrev pub close_found : Text → Option ℕ → Run (Unit {0})
  close_found i none = pure tt
  close_found i (some o) = do
    call (λ h. env.disconnects h o) (transport_disconnect o)
    close_wasm i
    unregister i

  unfoldable pub close_transport : Text → Run (Unit {0})
  close_transport i c = close_found i (get i c.transports) c
