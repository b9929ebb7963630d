-- ===== src/Client/Closing.antt =====
-- That `getServerFingerprint` and the session's `disconnect` of lib/index.ts close their transport.
use sshclient_sftp_wasm.Base.{
  ◌≡◌, refl, true, false, none, some, List, ◌∷◌, ◌++◌, Text, append_assoc, text_eq,
}
use sshclient_sftp_wasm.Client.Errors.{HostKeyPin, wrap_ssh_error}
use sshclient_sftp_wasm.Client.Program.{Outcome, resolved, rejected}
use sshclient_sftp_wasm.Client.State.{
  Transport, ConnectionOptions, Call, transport_connect, wasm_create_transport, wasm_fingerprint,
  session_disconnect, Env, Client, get, set,
}
use sshclient_sftp_wasm.Client.Api.{Session, capture, get_server_fingerprint, disconnect}
use sshclient_sftp_wasm.Client.Transports.{
  Settles, closed, create_transport_ok, close_transport_found, get-set, get-delete,
  get-delete_other,
}
use sshclient_sftp_wasm.Client.Lifetime.{closing, connected, asked}

module _ (env : Env) where
  fingerprint_guarded :
      (options : ConnectionOptions) (t : Transport) (c : Client)
      → c.initialized ≡ true
      → get_server_fingerprint env options t c ≡ capture env options t c
  unfolding get_server_fingerprint
  fingerprint_guarded options t c i = simp i

  -- The fingerprint, or what its capture is rejected with.
  abbrev captured : Outcome HostKeyPin → Outcome HostKeyPin
  captured (resolved pin) = resolved pin
  captured (rejected e) = rejected (wrap_ssh_error e)

  capture_closes :
      (options : ConnectionOptions) (t : Transport) (c : Client) (o : Outcome HostKeyPin)
      → Settles env
      → c.wasm_set ≡ true
      → env.creates c.calls t.id ≡ resolved tt
      → ((h : List Call) → env.connects h t.object ≡ resolved tt)
      → env.captures (connected t c).calls options t.id ≡ o
      → capture env options t c
        ≡ (captured o, closed t.id t.object (asked (wasm_fingerprint options t.id) (connected t c)))
  unfolding capture
  capture_closes options t c (resolved pin) s p r q k = rw (
    create_transport_ok env t c p r,
    q,
    k,
    close_transport_found env t.id t.object (asked (wasm_fingerprint options t.id) (connected t c))
        s p (get-set t.id t.object c.transports),
  )
  capture_closes options t c (rejected e) s p r q k = rw (
    create_transport_ok env t c p r,
    q,
    k,
    close_transport_found env t.id t.object (asked (wasm_fingerprint options t.id) (connected t c))
        s p (get-set t.id t.object c.transports),
  )

  -- On an initialized client that has the WebAssembly module, if the transport is created and connects,
  -- and disconnecting and closing it do not fail: `getServerFingerprint` creates and connects it, asks
  -- the module once for the fingerprint, and then disconnects and closes it whatever that came to,
  -- after which TransportManager holds none of its id; it resolves with the captured key or rejects
  -- with what `wrapSSHError` makes of the module's error.
  pub get_server_fingerprint_closes :
      (options : ConnectionOptions) (t : Transport) (c : Client)
      → Settles env
      → c.initialized ≡ true
      → c.wasm_set ≡ true
      → env.creates c.calls t.id ≡ resolved tt
      → ((h : List Call) → env.connects h t.object ≡ resolved tt)
      → let (o, d) = get_server_fingerprint env options t c in
        (o ≡ captured (env.captures (connected t c).calls options t.id))
        × (get t.id d.transports ≡ none)
        × (d.calls
            ≡ c.calls
              ++ (wasm_create_transport t.id
                  ∷ transport_connect t.object
                  ∷ wasm_fingerprint options t.id
                  ∷ closing t))
  get_server_fingerprint_closes options t c s i p r q =
      rw (fingerprint_guarded options t c i, capture_closes options t c _ s p r q refl)
        (refl, get-delete t.id (set t.id t.object c.transports), simp append_assoc)

  -- If TransportManager holds the session's transport, and disconnecting and closing it do not fail:
  -- the session's `disconnect` closes its transport whether or not the SSH session ends well, and
  -- settles as that does: TransportManager holds none of the transport's id, and all other
  -- transports as before.
  pub disconnect_closes :
      (s : Session) (c : Client) (i : Text)
      → Settles env
      → c.wasm_set ≡ true
      → get s.transport.id c.transports ≡ some s.transport.object
      → text_eq i s.transport.id ≡ false
      → let (o, d) = disconnect env s c in
        (o ≡ env.ends_session c.calls s.session_id)
        × (d.calls ≡ c.calls ++ (session_disconnect s.session_id ∷ closing s.transport))
        × (get s.transport.id d.transports ≡ none)
        × (get i d.transports ≡ get i c.transports)
  unfolding disconnect
  disconnect_closes s c i v p q h =
      rw
        (close_transport_found env s.transport.id s.transport.object
          (asked (session_disconnect s.session_id) c) v p q)
        (
          refl,
          simp append_assoc,
          get-delete s.transport.id c.transports,
          get-delete_other i s.transport.id c.transports h,
        )
