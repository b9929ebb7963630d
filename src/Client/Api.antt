-- ===== src/Client/Api.antt =====
-- SSHClient of lib/index.ts: `connect`, the session that it gives, and `getServerFingerprint`.
use sshclient_sftp_wasm.Base.{
  ℕ, Bool, true, false, Option, none, some, [], ◌∷◌, codes, if◌then◌else◌, Bytes, Text,
}
use sshclient_sftp_wasm.Client.Errors.{
  HostKeyPin, Thrown, plain_error, ssh_error, host_key_pin_required, wrap_ssh_error,
}
use sshclient_sftp_wasm.Client.Program.{pure, throw, ◌>>=◌, ◌>>◌, catching, finally, swallow}
use sshclient_sftp_wasm.Client.State.{
  Transport, ConnectionOptions, transport_connect, wasm_connect, wasm_fingerprint, session_send,
  session_disconnect, session_resize, wasm_sftp_open, wasm_disconnect, wasm_send, wasm_version, Env,
  Run, call,
}
use sshclient_sftp_wasm.Client.Manager.{create_transport, close_transport}

-- `options.hostKeyPin && options.hostKeyPin.sha256`
abbrev pub is_text : Text → Bool
is_text [] = false
is_text (c ∷ s) = true

abbrev pub is_pinned : Option HostKeyPin → Bool
is_pinned none = false
is_pinned (some pin) = is_text pin.sha256

abbrev pub not_initialized : Thrown
not_initialized = plain_error (codes "SSHClient not initialized. Call initialize() first.")

abbrev pub pin_required : Thrown
pin_required =
    ssh_error host_key_pin_required
      (codes
        "ConnectionOptions.hostKeyPin is required. Use SSHClient.getServerFingerprint() for TOFU capture.")
      none none

-- The guard of the static methods below.
abbrev pub when_initialized {ℓ} : {A : Type ℓ} → Run A → Run A
when_initialized m c =
    if c.initialized then m c else throw (plain_error (codes "SSHClient not initialized")) c

-- The session's closures hold its id and the transport.
pub record Session : Type 0 where
  pub session_id : Text
  pub transport : Transport

module _ (env : Env) where
  -- `await this.transportManager.closeTransport(id).catch(() => {})`
  abbrev pub close_quietly : Transport → Run (Unit {0})
  close_quietly t = swallow (close_transport env t.id)

  -- What `connect` does behind its guards.
  unfoldable pub connect_pinned : ConnectionOptions → Transport → Run Session
  connect_pinned options t = do
    create_transport env t
    call (λ h. env.connects h t.object) (transport_connect t.object)
    session_id ←
        catching (call (λ h. env.opens_session h options t.id) (wasm_connect options t.id))
          (λ e. do close_quietly t; throw (wrap_ssh_error e))
    pure (record { session_id = session_id; transport = t })

  abbrev pub connect_checked : ConnectionOptions → Transport → Run Session
  connect_checked options t c =
      if is_pinned options.host_key_pin then connect_pinned options t c else throw pin_required c

  unfoldable pub connect : ConnectionOptions → Transport → Run Session
  connect options t c =
      if c.initialized then connect_checked options t c else throw not_initialized c

  unfoldable pub capture : ConnectionOptions → Transport → Run HostKeyPin
  capture options t = do
    create_transport env t
    call (λ h. env.connects h t.object) (transport_connect t.object)
    finally
        (catching (call (λ h. env.captures h options t.id) (wasm_fingerprint options t.id))
          (λ e. throw (wrap_ssh_error e)))
        (close_quietly t)

  unfoldable pub get_server_fingerprint : ConnectionOptions → Transport → Run HostKeyPin
  get_server_fingerprint options t c =
      if c.initialized then capture options t c else throw not_initialized c

  -- The session's methods.
  unfoldable pub send : Session → Bytes → Run (Unit {0})
  send s data_bytes =
      catching
        (call (λ h. env.sends h s.session_id data_bytes) (session_send s.session_id data_bytes))
        (λ e. throw (wrap_ssh_error e))

  unfoldable pub disconnect : Session → Run (Unit {0})
  disconnect s =
      finally (call (λ h. env.ends_session h s.session_id) (session_disconnect s.session_id))
        (close_quietly s.transport)

  unfoldable pub resize_terminal : Session → ℕ → ℕ → Run (Unit {0})
  resize_terminal s cols rows =
      catching
        (call (λ h. env.resizes h s.session_id cols rows) (session_resize s.session_id cols rows))
        (λ e. throw (wrap_ssh_error e))

  -- It resolves with the id of the SFTP session, which the handle is made for.
  unfoldable pub sftp_open : Session → Run Text
  sftp_open s =
      catching (call (λ h. env.opens_sftp h s.session_id) (wasm_sftp_open s.session_id))
        (λ e. throw (wrap_ssh_error e))

  -- The static methods, which name a session by its id, and pass on what the module throws.
  unfoldable pub disconnect_by_id : Text → Run (Unit {0})
  disconnect_by_id i = when_initialized (call (λ h. env.ends_by_id h i) (wasm_disconnect i))

  unfoldable pub send_by_id : Text → Bytes → Run (Unit {0})
  send_by_id i bytes = when_initialized (call (λ h. env.sends_by_id h i bytes) (wasm_send i bytes))

  unfoldable pub get_version : Run Text
  get_version = when_initialized (call env.versions wasm_version)
