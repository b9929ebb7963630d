-- ===== src/Client/Lifetime.antt =====
-- When SSHClient of lib/index.ts opens a transport, and that it closes it again.
use sshclient_sftp_wasm.Base.{
  ◌≡◌, refl, ◌⊎◌, inl, inr, true, none, some, List, [], ◌∷◌, ◌++◌, Text, append_assoc,
}
use sshclient_sftp_wasm.Client.Errors.{Thrown, wrap_ssh_error}
use sshclient_sftp_wasm.Client.Program.{Outcome, resolved, rejected}
use sshclient_sftp_wasm.Client.State.{
  Transport, ConnectionOptions, Call, transport_connect, transport_disconnect, wasm_close_transport,
  wasm_create_transport, wasm_connect, Env, Client, get, set,
}
use sshclient_sftp_wasm.Client.Api.{Session, is_pinned, connect, connect_pinned}
use sshclient_sftp_wasm.Client.Transports.{
  Outcome-cases, Settles, created, closed, create_transport_ok, create_transport_fails,
  close_transport_found, get-set, get-delete,
}

-- The calls of `connect` up to the handshake, and those that close the transport.
abbrev pub opening : ConnectionOptions → Transport → List Call
opening options t =
    wasm_create_transport t.id ∷ transport_connect t.object ∷ wasm_connect options t.id ∷ []

abbrev pub closing : Transport → List Call
closing t = transport_disconnect t.object ∷ wasm_close_transport t.id ∷ []

-- The transport is connected; the handshake is about to begin.
abbrev pub connected : Transport → Client → Client
connected t c = record (created t c) {
  calls = (c.calls ++ (wasm_create_transport t.id ∷ [])) ++ (transport_connect t.object ∷ []);
}

abbrev pub asked : Call → Client → Client
asked k c = record c { calls = c.calls ++ (k ∷ []) }

-- What becomes of the transport, by what the module answers.
abbrev pub Accounted :
    Env → ConnectionOptions → Transport → Client → Outcome Session × Client → Type 0
Accounted env options t c (resolved s, d) =
    (env.opens_session (connected t c).calls options t.id ≡ resolved s.session_id)
    × (s.transport ≡ t)
    × (get t.id d.transports ≡ some t.object)
    × (d.calls ≡ c.calls ++ opening options t)
Accounted env options t c (rejected e, d) =
    ((env.creates c.calls t.id ≡ rejected e)
      × (d.transports ≡ c.transports)
      × (d.calls ≡ c.calls ++ (wasm_create_transport t.id ∷ [])))
    ⊎ (((raw : Thrown) × (env.opens_session (connected t c).calls options t.id ≡ rejected raw)
          × (e ≡ wrap_ssh_error raw))
        × (get t.id d.transports ≡ none)
        × (d.calls ≡ c.calls ++ (opening options t ++ closing t)))

module _ (env : Env) where
  connect_pinned_opens :
      (options : ConnectionOptions) (t : Transport) (c : Client) (i : Text)
      → c.wasm_set ≡ true
      → env.creates c.calls t.id ≡ resolved tt
      → ((h : List Call) → env.connects h t.object ≡ resolved tt)
      → env.opens_session (connected t c).calls options t.id ≡ resolved i
      → connect_pinned env options t c ≡ (
        resolved (record { session_id = i; transport = t }),
        asked (wasm_connect options t.id) (connected t c),
      )
  unfolding connect_pinned
  connect_pinned_opens options t c i p r q e = rw (create_transport_ok env t c p r, q, e)

  connect_pinned_refused :
      (options : ConnectionOptions) (t : Transport) (c : Client) (e : Thrown)
      → Settles env
      → c.wasm_set ≡ true
      → env.creates c.calls t.id ≡ resolved tt
      → ((h : List Call) → env.connects h t.object ≡ resolved tt)
      → env.opens_session (connected t c).calls options t.id ≡ rejected e
      → connect_pinned env options t c ≡ (
        rejected (wrap_ssh_error e),
        closed t.id t.object (asked (wasm_connect options t.id) (connected t c)),
      )
  unfolding connect_pinned
  connect_pinned_refused options t c e s p r q k = rw (
    create_transport_ok env t c p r,
    q,
    k,
    close_transport_found env t.id t.object (asked (wasm_connect options t.id) (connected t c)) s p
        (get-set t.id t.object c.transports),
  )

  connect_pinned-Accounted :
      (options : ConnectionOptions) (t : Transport) (c : Client)
      → Settles env
      → c.wasm_set ≡ true
      → ((h : List Call) → env.connects h t.object ≡ resolved tt)
      → Accounted env options t c (connect_pinned env options t c)
  unfolding connect_pinned
  connect_pinned-Accounted options t c s p q = elim (Outcome-cases (env.creates c.calls t.id)) [
    | inr (e, r) ↦ rw (create_transport_fails env t c e p r) (inl (r, refl, refl))
    | inl (u, r) ↦ elim (Outcome-cases (env.opens_session (connected t c).calls options t.id)) [
      | inl (i, k) ↦
          rw (connect_pinned_opens options t c i p r q k)
            (k, refl, get-set t.id t.object c.transports, simp append_assoc)
      | inr (e, k) ↦
          rw (connect_pinned_refused options t c e s p r q k) (
            inr ((e, k, refl), get-delete t.id (set t.id t.object c.transports), simp append_assoc))
    ]
  ]

  connect_guarded :
      (options : ConnectionOptions) (t : Transport) (c : Client)
      → c.initialized ≡ true
      → is_pinned options.host_key_pin ≡ true
      → connect env options t c ≡ connect_pinned env options t c
  unfolding connect
  connect_guarded options t c i k = simp (i, k)

  -- On an initialized client that has the WebAssembly module, with a pin and a transport that
  -- connects, and if disconnecting and closing a transport do not fail: if `connect` resolves, its
  -- session has the id that the module answered and the transport, which TransportManager holds,
  -- after one call each to create, to connect and to shake hands. If it rejects, it does so with
  -- the error of the module's `createTransport`, the transport was never connected and
  -- TransportManager holds what it held; or it rejects with what `wrapSSHError` makes of the error
  -- of the module's handshake, the transport was disconnected and closed, in this order, and
  -- TransportManager holds none of its id.
  pub connect-Accounted :
      (options : ConnectionOptions) (t : Transport) (c : Client)
      → Settles env
      → c.initialized ≡ true
      → c.wasm_set ≡ true
      → is_pinned options.host_key_pin ≡ true
      → ((h : List Call) → env.connects h t.object ≡ resolved tt)
      → Accounted env options t c (connect env options t c)
  connect-Accounted options t c s i p k q =
      rw (connect_guarded options t c i k) (connect_pinned-Accounted options t c s p q)

  -- On an initialized client and with a pin, a transport that is created and then fails to connect
  -- stays with TransportManager: `connect` rejects with the
  -- transport's own error, not wrapped, and neither disconnects the transport nor closes it.
  pub connect_leaks :
      (options : ConnectionOptions) (t : Transport) (c : Client) (e : Thrown)
      → c.initialized ≡ true
      → c.wasm_set ≡ true
      → is_pinned options.host_key_pin ≡ true
      → env.creates c.calls t.id ≡ resolved tt
      → ((h : List Call) → env.connects h t.object ≡ rejected e)
      → let (o, d) = connect env options t c in
        (o ≡ rejected e)
        × (get t.id d.transports ≡ some t.object)
        × (d.calls ≡ c.calls ++ (wasm_create_transport t.id ∷ transport_connect t.object ∷ []))
  unfolding connect_pinned
  connect_leaks options t c e i p k r q =
      rw (connect_guarded options t c i k, create_transport_ok env t c p r, q)
        (refl, get-set t.id t.object c.transports, append_assoc c.calls _ _)
