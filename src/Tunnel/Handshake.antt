-- ===== src/Tunnel/Handshake.antt =====
-- SecureTunnelTransport of lib/aws-iot-tunnel.ts before its peer has sent anything.
use sshclient_sftp_wasm.Base.{
  ◌≡◌, refl, ap, Bool, true, false, Option, none, some, List, [], ◌∷◌, ◌++◌, each, All, Bytes,
  append_assoc, append-nil, Text, Bool-cases, inl, inr,
}
use sshclient_sftp_wasm.Wire.{Wire}
use sshclient_sftp_wasm.Messages.Props.{Props}
use sshclient_sftp_wasm.Messages.Class.{Protocol, encode_message}
use sshclient_sftp_wasm.Tunnel.State.{
  ClientMode, source, destination, ReadyState, SecureTunnelConfig, Callbacks, Effect, socket, sent,
  socket_close, data_out, error_out, close_out, resolved, rejected, TunnelCore,
  SecureTunnelTransport, new_transport, emit, call_back, is_truthy,
}
use sshclient_sftp_wasm.Tunnel.Url.{build_websocket_url, subprotocol}
use sshclient_sftp_wasm.Tunnel.Outgoing.{frame, send_control_message}
use sshclient_sftp_wasm.Tunnel.Incoming.{disconnect, close_socket}
use sshclient_sftp_wasm.Tunnel.Chunks.{send_frame-cases}
use sshclient_sftp_wasm.Tunnel.Queue.{send_waiting}
use sshclient_sftp_wasm.Tunnel.Lifecycle.{
  Event, connects, opens, errors, closes, disconnects, delivers, sends, ready_state, connect, greet,
  stale_opens, stale_closes, on_open, on_error, on_close, stale_open, stale_close, open_socket,
  step,
}

-- The data of the calls of `send`, in order.
abbrev pub sends_of : List Event → List Bytes
sends_of [] = []
sends_of (sends b ∷ es) = b ∷ sends_of es
sends_of (e ∷ es) = sends_of es

-- Nothing has come from the peer.
abbrev pub IsOwn : Event → Type 0
IsOwn (delivers b) = ⊥
IsOwn e = Unit

sends_of-cons : (e : Event) (es : List Event) → sends_of (e ∷ es) ≡ sends_of (e ∷ []) ++ sends_of es
sends_of-cons (sends b) es = refl
sends_of-cons e es = refl

module _ (w : Wire) where
  -- No data for the owner, and no frame but those of messages without a payload.
  abbrev pub IsControl : Protocol → Effect → Type 0
  IsControl q (sent f) = (p : Props) × (p.payload ≡ none) × (f ≡ frame (encode_message w q p))
  IsControl q (data_out b) = ⊥
  IsControl q e = Unit

  -- Before the handshake `ds` waits in the queue.
  pub record IsWaiting (ds : List Bytes) (c : TunnelCore) : Type 0 where
    pub not_ready : c.tunnel_ready ≡ false
    pub queue : c.message_queue ≡ ds
    pub control : All (IsControl c.protocol) c.effects

  All-emit :
      (q : Protocol) (es : List Effect) (e : Effect)
      → All (IsControl q) es
      → IsControl q e
      → All (IsControl q) (es ++ (e ∷ []))
  All-emit q [] e h k = (k, tt)
  All-emit q (x ∷ es) e h k = (h.0, All-emit q es e h.1 k)

  emit-IsWaiting :
      (ds : List Bytes) (e : Effect) (c : TunnelCore)
      → IsControl c.protocol e
      → IsWaiting ds c
      → IsWaiting ds (emit e c)
  emit-IsWaiting ds e c k v = record {
    not_ready = v.not_ready;
    queue = v.queue;
    control = All-emit c.protocol c.effects e v.control k;
  }

  call_back-IsWaiting :
      (ds : List Bytes) (b : Bool) (e : Effect) (c : TunnelCore)
      → IsControl c.protocol e
      → IsWaiting ds c
      → IsWaiting ds (call_back b e c)
  call_back-IsWaiting ds true e c k v = emit-IsWaiting ds e c k v
  call_back-IsWaiting ds false e c k v = v

  control-IsWaiting :
      (ds : List Bytes) (p : Props) (c : TunnelCore)
      → p.payload ≡ none
      → IsWaiting ds c
      → IsWaiting ds (send_control_message w p c)
  unfolding send_control_message
  control-IsWaiting ds p c e v =
      send_frame-cases (IsWaiting ds) (encode_message w c.protocol p) c v
        (emit-IsWaiting ds _ c (p, e, refl) v)

  close_socket-IsWaiting :
      (ds : List Bytes) (o : Option ReadyState) (c : TunnelCore)
      → IsWaiting ds c
      → IsWaiting ds (close_socket w o c)
  unfolding close_socket
  close_socket-IsWaiting ds none c v = v
  close_socket-IsWaiting ds (some s) c v =
      let u = emit-IsWaiting ds socket_close _ tt (control-IsWaiting ds _ c refl v) in
      record { not_ready = u.not_ready; queue = u.queue; control = u.control }

  greet-IsWaiting :
      (ds : List Bytes) (m : ClientMode) (c : TunnelCore)
      → IsWaiting ds c
      → IsWaiting ds (greet w m c)
  unfolding greet
  greet-IsWaiting ds source c v = control-IsWaiting ds _ c refl v
  greet-IsWaiting ds destination c v = elim (Bool-cases (is_truthy c.config.service_id)) [
    | inl named ↦ rw named (control-IsWaiting ds _ c refl v)
    | inr unnamed ↦ rw unnamed v
  ]

  open_socket-IsWaiting :
      (ds : List Bytes) (b : Bool) (url : Option Text) (c : TunnelCore)
      → IsWaiting ds c
      → IsWaiting ds (open_socket b url c)
  unfolding open_socket
  open_socket-IsWaiting ds b none c v = emit-IsWaiting ds rejected c tt v
  open_socket-IsWaiting ds false (some url) c v = emit-IsWaiting ds rejected c tt v
  open_socket-IsWaiting ds true (some url) c v =
      let u = emit-IsWaiting ds (socket url (subprotocol c.protocol)) c tt v in
      record { not_ready = u.not_ready; queue = u.queue; control = u.control }

  step-IsWaiting :
      (e : Event) (ds : List Bytes) (t : SecureTunnelTransport)
      → IsOwn e
      → IsWaiting ds t.core
      → IsWaiting (ds ++ sends_of (e ∷ [])) (step w e t).core
  unfolding step
  step-IsWaiting (connects b) ds t own v =
      rw append-nil
        (unfold connect in open_socket-IsWaiting ds b (build_websocket_url t.core.config) t.core v)
  step-IsWaiting opens ds t own v = rw append-nil (
      unfold on_open in
      emit-IsWaiting ds resolved _ tt (
        greet-IsWaiting ds t.core.config.client_mode _
          (record { not_ready = v.not_ready; queue = v.queue; control = v.control })))
  step-IsWaiting errors ds t own v = rw append-nil (
      unfold on_error in
      emit-IsWaiting ds rejected _ tt
        (call_back-IsWaiting ds t.core.callbacks.on_error error_out t.core tt v))
  step-IsWaiting closes ds t own v = rw append-nil (
      unfold on_close in
      call_back-IsWaiting ds t.core.callbacks.on_close close_out _ tt
        (record { not_ready = refl; queue = v.queue; control = v.control }))
  step-IsWaiting stale_opens ds t own v = rw append-nil (
      unfold stale_open in
      emit-IsWaiting ds resolved _ tt (
        greet-IsWaiting ds t.core.config.client_mode _
          (record { not_ready = v.not_ready; queue = v.queue; control = v.control })))
  step-IsWaiting stale_closes ds t own v = rw append-nil (
      unfold stale_close in
      call_back-IsWaiting ds t.core.callbacks.on_close close_out _ tt
        (record { not_ready = refl; queue = v.queue; control = v.control }))
  step-IsWaiting disconnects ds t own v =
      let u = close_socket-IsWaiting ds t.core.ws t.core v in
      rw append-nil
        (unfold disconnect in record { not_ready = refl; queue = u.queue; control = u.control })
  step-IsWaiting (delivers b) ds t own v = absurd own
  step-IsWaiting (sends b) ds t own v = rw (send_waiting w b t.core v.not_ready) (record {
    not_ready = v.not_ready;
    queue = ap (λ ms. ms ++ (b ∷ [])) v.queue;
    control = v.control;
  })
  step-IsWaiting (ready_state s) ds t own v =
      rw append-nil (record { not_ready = v.not_ready; queue = v.queue; control = v.control })

  run-IsWaiting :
      (es : List Event) (ds : List Bytes) (t : SecureTunnelTransport)
      → All IsOwn es
      → IsWaiting ds t.core
      → IsWaiting (ds ++ sends_of es) (each (step w) es t).core
  run-IsWaiting [] ds t own v = rw append-nil v
  run-IsWaiting (e ∷ es) ds t own v =
      rw (sends_of-cons e es, ← append_assoc ds (sends_of (e ∷ [])) (sends_of es))
        (run-IsWaiting es (ds ++ sends_of (e ∷ [])) (step w e t) own.1
          (step-IsWaiting e ds t own.0 v))

  -- From a new transport, whatever its owner calls and whatever its sockets report, until a
  -- message is delivered: the tunnel is not ready, the data of every call of `send` waits in the
  -- queue in the order of the calls, the owner is given no data, and every frame that was sent is
  -- that of a message without a payload.
  pub run_before_handshake :
      (config : SecureTunnelConfig) (callbacks : Callbacks) (es : List Event)
      → All IsOwn es
      → IsWaiting (sends_of es) (each (step w) es (new_transport config callbacks)).core
  unfolding new_transport
  run_before_handshake config callbacks es own =
      run-IsWaiting es [] _ own (record { not_ready = refl; queue = refl; control = tt })
