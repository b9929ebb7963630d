-- ===== src/Tunnel/Stale.antt =====
-- The close event of a socket that SecureTunnelTransport of lib/aws-iot-tunnel.ts has replaced.
use sshclient_sftp_wasm.Base.{
  ◌≡◌, refl, ap, ◌∙◌, Bool, true, false, some, List, [], ◌∷◌, ◌++◌, each, append_assoc, append-nil,
  Bytes,
}
use sshclient_sftp_wasm.Wire.{Wire}
use sshclient_sftp_wasm.Tunnel.State.{ws_open, close_out, TunnelCore, call_back}
use sshclient_sftp_wasm.Tunnel.Outgoing.{send}
use sshclient_sftp_wasm.Tunnel.Queue.{send_waiting}
use sshclient_sftp_wasm.Tunnel.Lifecycle.{stale_close}

module _ (w : Wire) where
  -- The calls of `send` on a transport that is not ready only queue.
  each-send_waiting :
      (ds : List Bytes) (c : TunnelCore)
      → c.tunnel_ready ≡ false
      → each (send w) ds c ≡ record c { message_queue = c.message_queue ++ ds }
  each-send_waiting [] c e = rw (append-nil c.message_queue) refl
  each-send_waiting (d ∷ ds) c e =
      ap (each (send w) ds) (send_waiting w d c e)
      ∙ each-send_waiting ds (record c { message_queue = c.message_queue ++ (d ∷ []) }) e
      ∙ rw (append_assoc c.message_queue (d ∷ []) ds) refl

  -- The transport as the close event of another socket leaves it.
  abbrev left : TunnelCore → TunnelCore
  left c =
      call_back c.callbacks.on_close close_out
        (record c { is_connected = false; tunnel_ready = false })

  call_back_ready :
      (b : Bool) (c : TunnelCore)
      → let d = call_back b close_out (record c { is_connected = false; tunnel_ready = false }) in
        (d.tunnel_ready ≡ false) × (d.ws ≡ c.ws) × (d.message_queue ≡ c.message_queue)
  call_back_ready true c = (refl, refl, refl)
  call_back_ready false c = (refl, refl, refl)

  -- Once a socket that has been replaced reports its close, the transport sends none of the data it
  -- is given, though its own socket is still open: all of it is queued.
  stale_close_stops :
      (ds : List Bytes) (c : TunnelCore)
      → c.ws ≡ some ws_open
      → let d = each (send w) ds (stale_close w c) in
        (d.ws ≡ some ws_open)
        × (d.effects ≡ (stale_close w c).effects)
        × (d.message_queue ≡ c.message_queue ++ ds)
  unfolding stale_close
  stale_close_stops ds c e =
      let (r, s, q) = call_back_ready c.callbacks.on_close c in
      rw (each-send_waiting ds (left c) r) (s ∙ e, refl, ap (λ ms. ms ++ ds) q)
