-- ===== src/Client/Pinning.antt =====
-- No handshake of SSHClient.connect in lib/index.ts without a host key pin.
use sshclient_sftp_wasm.Base.{
  codes, ℕ, ◌≡◌, true, Option, none, some, List, [], ◌∷◌, All, each, Text,
}
use sshclient_sftp_wasm.Client.Errors.{plain_error, wrap_ssh_error}
use sshclient_sftp_wasm.Client.Program.{Outcome, pure, throw, ◌>>◌, catching}
use sshclient_sftp_wasm.Client.State.{
  Transport, ConnectionOptions, Call, transport_connect, transport_disconnect, wasm_close_transport,
  wasm_create_transport, wasm_connect, wasm_fingerprint, session_send, session_disconnect,
  session_resize, wasm_sftp_open, wasm_disconnect, wasm_send, wasm_version, Env, Client, Run, call,
  get,
}
use sshclient_sftp_wasm.Client.Manager.{
  create_transport, close_transport, close_found, close_wasm, register, unregister,
}
use sshclient_sftp_wasm.Client.Api.{
  is_pinned, connect, connect_checked, not_initialized, pin_required, connect_pinned, capture,
  get_server_fingerprint, send, disconnect, resize_terminal, sftp_open, close_quietly,
  when_initialized, disconnect_by_id, send_by_id, get_version,
}
use sshclient_sftp_wasm.Client.Operations.{
  Operation, connects, captures, sends, disconnects, opens_sftp, resizes, disconnects_by_id,
  sends_by_id, asks_version, step,
}
use sshclient_sftp_wasm.Client.Keeps.{
  IsGuarded, Guarded, Keeps, Keeps-pure, Keeps-throw, Keeps-call, Keeps-bind, Keeps-catching,
  Keeps-finally, Keeps-if,
}

module _ (env : Env) where
  Keeps-register : (t : Transport) → Keeps (register t)
  Keeps-register t = record { keeps = λ c h. record { guarded = h.guarded } }

  Keeps-unregister : (i : Text) → Keeps (unregister i)
  Keeps-unregister i = record { keeps = λ c h. record { guarded = h.guarded } }

  Keeps-create_transport : (t : Transport) → Keeps (create_transport env t)
  unfolding create_transport
  Keeps-create_transport t = record {
    keeps = λ c h.
        Keeps-if c.wasm_set
          (call (λ h'. env.creates h' t.id) (wasm_create_transport t.id) >> register t)
          (throw (plain_error (codes "WASM instance not set"))) c
          (λ _.
            Keeps-bind (call (λ h'. env.creates h' t.id) (wasm_create_transport t.id))
              (λ _. register t) (Keeps-call _ _ tt) (λ _. Keeps-register t))
          (Keeps-throw _) h;
  }

  Keeps-close_wasm : (i : Text) → Keeps (close_wasm env i)
  Keeps-close_wasm i = record {
    keeps = λ c h.
        Keeps-if c.wasm_set (call (λ h'. env.closes h' i) (wasm_close_transport i)) (pure tt) c
          (λ _. Keeps-call _ _ tt) (Keeps-pure tt) h;
  }

  Keeps-close_found : (i : Text) (o : Option ℕ) → Keeps (close_found env i o)
  Keeps-close_found i none = Keeps-pure tt
  Keeps-close_found i (some o) =
      Keeps-bind (call (λ h. env.disconnects h o) (transport_disconnect o)) _ (Keeps-call _ _ tt)
        (λ _. Keeps-bind (close_wasm env i) _ (Keeps-close_wasm i) (λ _. Keeps-unregister i))

  Keeps-close_quietly : (t : Transport) → Keeps (close_quietly env t)
  unfolding close_transport
  Keeps-close_quietly t =
      Keeps-catching (close_transport env t.id) (λ e. pure tt)
        (record { keeps = λ c. (Keeps-close_found t.id (get t.id c.transports)).keeps c })
        (λ e. Keeps-pure tt)

  Keeps-wrapped {ℓ} :
      {A : Type ℓ} (reply : List Call → Outcome A) (k : Call)
      → IsGuarded k
      → Keeps (catching (call reply k) (λ e. throw (wrap_ssh_error e)))
  Keeps-wrapped reply k g =
      Keeps-catching (call reply k) (λ e. throw (wrap_ssh_error e)) (Keeps-call reply k g)
        (λ e. Keeps-throw (wrap_ssh_error e))

  Keeps-transport_connect :
      (t : Transport) → Keeps (call (λ h. env.connects h t.object) (transport_connect t.object))
  Keeps-transport_connect t = Keeps-call _ _ tt

  Keeps-connect_pinned :
      (options : ConnectionOptions) (t : Transport)
      → is_pinned options.host_key_pin ≡ true
      → Keeps (connect_pinned env options t)
  unfolding connect_pinned
  Keeps-connect_pinned options t pinned =
      Keeps-bind (create_transport env t) _ (Keeps-create_transport t) λ _.
        Keeps-bind (call (λ h. env.connects h t.object) (transport_connect t.object)) _
          (Keeps-transport_connect t)
          λ _.
            Keeps-bind
              (catching (call (λ h. env.opens_session h options t.id) (wasm_connect options t.id))
                (λ e. close_quietly env t >> throw (wrap_ssh_error e)))
              _
              (Keeps-catching _ _ (Keeps-call _ _ pinned) λ e.
                Keeps-bind (close_quietly env t) _ (Keeps-close_quietly t) (λ _. Keeps-throw _))
              (λ i. Keeps-pure _)

  Keeps-connect : (options : ConnectionOptions) (t : Transport) → Keeps (connect env options t)
  unfolding connect
  Keeps-connect options t = record {
    keeps = λ c h.
        Keeps-if c.initialized (connect_checked env options t) (throw not_initialized) c
          (λ _. record {
            keeps = λ d.
                Keeps-if (is_pinned options.host_key_pin) (connect_pinned env options t)
                  (throw pin_required) d (Keeps-connect_pinned options t) (Keeps-throw _);
          })
          (Keeps-throw _) h;
  }

  Keeps-capture : (options : ConnectionOptions) (t : Transport) → Keeps (capture env options t)
  unfolding capture
  Keeps-capture options t = Keeps-bind (create_transport env t) _ (Keeps-create_transport t) λ _.
      Keeps-bind (call (λ h. env.connects h t.object) (transport_connect t.object)) _
        (Keeps-transport_connect t)
        λ _.
          Keeps-finally
            (catching (call (λ h. env.captures h options t.id) (wasm_fingerprint options t.id))
              (λ e. throw (wrap_ssh_error e)))
            (close_quietly env t) (Keeps-wrapped _ _ tt) (Keeps-close_quietly t)

  Keeps-get_server_fingerprint :
      (options : ConnectionOptions) (t : Transport) → Keeps (get_server_fingerprint env options t)
  unfolding get_server_fingerprint
  Keeps-get_server_fingerprint options t = record {
    keeps = λ c h.
        Keeps-if c.initialized (capture env options t) (throw not_initialized) c
          (λ _. Keeps-capture options t) (Keeps-throw _) h;
  }

  Keeps-when_initialized {ℓ} : {A : Type ℓ} (m : Run A) → Keeps m → Keeps (when_initialized m)
  Keeps-when_initialized m k = record {
    keeps = λ c h.
        Keeps-if c.initialized m (throw (plain_error (codes "SSHClient not initialized"))) c
          (λ _. k) (Keeps-throw _) h;
  }

  step-Guarded : (op : Operation) (c : Client) → Guarded c → Guarded (step env op c)
  unfolding step send disconnect resize_terminal sftp_open disconnect_by_id send_by_id get_version
  step-Guarded (connects options t) = (Keeps-connect options t).keeps
  step-Guarded (captures options t) = (Keeps-get_server_fingerprint options t).keeps
  step-Guarded (sends s b) =
      (Keeps-wrapped (λ h. env.sends h s.session_id b) (session_send s.session_id b) tt).keeps
  step-Guarded (disconnects s) =
      (Keeps-finally (call (λ h. env.ends_session h s.session_id) (session_disconnect s.session_id))
        (close_quietly env s.transport) (Keeps-call _ _ tt) (Keeps-close_quietly s.transport)).keeps
  step-Guarded (opens_sftp s) =
      (Keeps-wrapped (λ h. env.opens_sftp h s.session_id) (wasm_sftp_open s.session_id) tt).keeps
  step-Guarded (resizes s cols rows) =
      (Keeps-wrapped (λ h. env.resizes h s.session_id cols rows)
        (session_resize s.session_id cols rows) tt).keeps
  step-Guarded (disconnects_by_id i) =
      (Keeps-when_initialized (call (λ h. env.ends_by_id h i) (wasm_disconnect i))
        (Keeps-call _ _ tt)).keeps
  step-Guarded (sends_by_id i b) =
      (Keeps-when_initialized (call (λ h. env.sends_by_id h i b) (wasm_send i b))
        (Keeps-call _ _ tt)).keeps
  step-Guarded asks_version =
      (Keeps-when_initialized (call env.versions wasm_version) (Keeps-call _ _ tt)).keeps

  run-Guarded : (ops : List Operation) (c : Client) → Guarded c → Guarded (each (step env) ops c)
  run-Guarded [] c h = h
  run-Guarded (op ∷ ops) c h = run-Guarded ops (step env op c) (step-Guarded op c h)

  -- Whatever the owner calls, in whatever order, and whatever the transports and the WebAssembly
  -- module answer: from a client that has called nothing yet, every handshake of `connect` that the
  -- module is asked for has options with a pin of a key's fingerprint.
  pub run_pinned :
      (ops : List Operation) (c : Client)
      → c.calls ≡ []
      → All IsGuarded (each (step env) ops c).calls
  run_pinned ops c e = (run-Guarded ops c (record { guarded = rw e tt })).guarded
