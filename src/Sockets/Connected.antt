-- ===== src/Sockets/Connected.antt =====
-- CustomTransport of lib/transport.ts sends only between a connect and a disconnect that resolved.
use sshclient_sftp_wasm.Base.{◌≡◌, refl, sym, ap, ◌∙◌, Bool, true, false, List, [], ◌∷◌, Bytes}
use sshclient_sftp_wasm.Client.Program.{Outcome, resolved, rejected, continue}
use sshclient_sftp_wasm.Sockets.CustomTransport.{
  CustomCall, connect_impl, disconnect_impl, send_impl, CustomTransport, Implementation,
  not_connected, CustomOperation, connects, disconnects, sends, injects, call_impl,
  finish_disconnect, send_on, set_connected, connect, disconnect, send, inject_data, step,
  record_call, close_out, data_out,
}

-- Whether the transport is up after an operation that came to `o`, by what its owner has seen.
abbrev pub up_after : Bool → CustomOperation → Outcome (Unit {0}) → Bool
up_after u connects (resolved v) = true
up_after u disconnects (resolved v) = false
up_after u op o = u

-- What `send` does on a transport that is down: it rejects, and the implementation is not called.
abbrev pub IsRefused :
    Bool → CustomOperation → CustomTransport → Outcome (Unit {0}) × CustomTransport → Type 0
IsRefused false (sends bytes) t (o, d) = (o ≡ rejected not_connected) × (d ≡ t)
IsRefused u op t r = Unit

module _ (impl : Implementation) where
  -- The operations one after the other, each judged by what its owner has seen before it.
  abbrev pub Respects : Bool → List CustomOperation → CustomTransport → Type 0
  Respects u [] t = t.is_connected ≡ u
  Respects u (op ∷ ops) t =
      IsRefused u op t (step impl op t)
      × Respects (up_after u op (step impl op t).0) ops (step impl op t).1

  call_connected :
      (b : Bool) (k : CustomCall) (t : CustomTransport)
      → (call_impl impl b k t).1.is_connected ≡ t.is_connected
  call_connected true k t = refl
  call_connected false k t = refl

  record_connected :
      (b : Bool) (k : CustomCall) (t : CustomTransport)
      → (record_call b k t).is_connected ≡ t.is_connected
  record_connected true k t = refl
  record_connected false k t = refl

  connect_tracks :
      (r : Outcome (Unit {0}) × CustomTransport) (u : Bool)
      → r.1.is_connected ≡ u
      → let q = continue (λ v. set_connected impl true) r in
        q.1.is_connected ≡ up_after u connects q.0
  connect_tracks (resolved v, d) u h = refl
  connect_tracks (rejected e, d) u h = h

  disconnect_tracks :
      (r : Outcome (Unit {0}) × CustomTransport) (u : Bool)
      → r.1.is_connected ≡ u
      → let q = continue (λ v. finish_disconnect impl) r in
        q.1.is_connected ≡ up_after u disconnects q.0
  disconnect_tracks (resolved v, d) u h = record_connected d.has_on_close close_out _
  disconnect_tracks (rejected e, d) u h = h

  send_keeps :
      (b : Bool) (bytes : Bytes) (t : CustomTransport)
      → (send_on impl b bytes t).1.is_connected ≡ t.is_connected
  send_keeps true bytes t = call_connected t.has_send (send_impl bytes) t
  send_keeps false bytes t = refl

  up_after-sends :
      (u : Bool) (bytes : Bytes) (o : Outcome (Unit {0})) → up_after u (sends bytes) o ≡ u
  up_after-sends u bytes (resolved v) = refl
  up_after-sends u bytes (rejected e) = refl

  step_tracks :
      (op : CustomOperation) (u : Bool) (t : CustomTransport)
      → t.is_connected ≡ u
      → (step impl op t).1.is_connected ≡ up_after u op (step impl op t).0
  unfolding connect disconnect send inject_data
  step_tracks connects u t h =
      connect_tracks (call_impl impl t.has_connect connect_impl t) u
        (call_connected t.has_connect connect_impl t ∙ h)
  step_tracks disconnects u t h =
      disconnect_tracks (call_impl impl t.has_disconnect disconnect_impl t) u
        (call_connected t.has_disconnect disconnect_impl t ∙ h)
  step_tracks (sends bytes) u t h =
      send_keeps t.is_connected bytes t
      ∙ h
      ∙ sym (up_after-sends u bytes (step impl (sends bytes) t).0)
  step_tracks (injects bytes) u t h = record_connected t.has_on_data (data_out bytes) t ∙ h

  step-IsRefused :
      (op : CustomOperation) (u : Bool) (t : CustomTransport)
      → t.is_connected ≡ u
      → IsRefused u op t (step impl op t)
  unfolding send
  step-IsRefused (sends bytes) false t h =
      (ap (λ b. (send_on impl b bytes t).0) h, ap (λ b. (send_on impl b bytes t).1) h)
  step-IsRefused (sends bytes) true t h = tt
  step-IsRefused connects false t h = tt
  step-IsRefused connects true t h = tt
  step-IsRefused disconnects false t h = tt
  step-IsRefused disconnects true t h = tt
  step-IsRefused (injects bytes) false t h = tt
  step-IsRefused (injects bytes) true t h = tt

  -- Whatever its owner calls and whatever the implementation answers: at every moment a transport
  -- is connected exactly if, of the calls of connect and disconnect that resolved, the last was a
  -- connect, or if there was none and it was connected at the start; and where it is not, `send`
  -- rejects and calls nothing.
  pub run-Respects :
      (ops : List CustomOperation) (t : CustomTransport) → Respects t.is_connected ops t
  run-Respects ops t = go ops t.is_connected t refl
    where
      go :
          (ops : List CustomOperation) (u : Bool) (t : CustomTransport)
          → t.is_connected ≡ u
          → Respects u ops t
      go [] u t h = h
      go (op ∷ ops) u t h =
          (step-IsRefused op u t h, go ops _ (step impl op t).1 (step_tracks op u t h))
