-- ===== src/Tunnel/Pipe/Delivery.antt =====
-- From a new SecureTunnelTransport of lib/aws-iot-tunnel.ts to the end of its handshake and beyond:
-- all data comes through.
use sshclient_sftp_wasm.Base.{
  ◌≤◌, ◌≡◌, refl, ◌∙◌, true, some, List, [], ◌∷◌, ◌++◌, concat, each, All, Text,
}
use sshclient_sftp_wasm.Wire.{Wire, ReadsBack, Consumes, IsAscii}
use sshclient_sftp_wasm.Messages.Class.{Received}
use sshclient_sftp_wasm.Tunnel.State.{SecureTunnelConfig, Callbacks, new_transport}
use sshclient_sftp_wasm.Tunnel.Url.{build_websocket_url}
use sshclient_sftp_wasm.Messages.Fields.{Own}
use sshclient_sftp_wasm.Messages.AnyClass.{own_length}
use sshclient_sftp_wasm.Tunnel.Pipe.{
  shut_pipe, Operation, receives, ends_handshake, Continues, perform, carried,
}
use sshclient_sftp_wasm.Tunnel.Pipe.Passing.{data_of, opened_passes}
use sshclient_sftp_wasm.Tunnel.Pipe.Opening.{opened, opened-ReadsAs}
use sshclient_sftp_wasm.Tunnel.Pipe.Refinement.{run_refines}

module _ (w : Wire) (back : ReadsBack w) (takes : Consumes w) where
  -- A new transport whose socket opens has, once the message that ends the handshake comes, handed
  -- to its socket all data of all calls of `send`, those before that message and those after it, in
  -- the order of the calls: the data that the peer finds in the frames sent is the data of the
  -- calls, the queue holds no byte and the tunnel is ready. Among the messages that come there is no
  -- SESSION_RESET, their stream ids have 32 bits, the socket stays open, and the service id is
  -- ASCII of at most 900 characters.
  pub handshake_delivers :
      (config : SecureTunnelConfig) (callbacks : Callbacks) (before after : List Operation)
      (m : Received) {url : Text}
      → build_websocket_url config ≡ some url
      → Own IsAscii config.service_id
      → own_length config.service_id ≤ 900
      → All Continues (before ++ (receives m ∷ after))
      → ends_handshake config.client_mode m ≡ true
      → let os = before ++ (receives m ∷ after) in
        let c = each (perform w) os (opened w config callbacks) in
        (c.tunnel_ready ≡ true)
        × (concat c.message_queue ≡ [])
        × (carried w (new_transport config callbacks).core.protocol c.effects ≡ concat (data_of os))
  handshake_delivers config callbacks before after m h a l continues ends =
      let reads =
        run_refines w back takes config.client_mode (new_transport config callbacks).core.protocol
          (before ++ (receives m ∷ after)) shut_pipe (opened w config callbacks) continues
          (opened-ReadsAs w back takes config callbacks h a l) in
      let (has_opened, none_waits, passed) =
        opened_passes config.client_mode before after m shut_pipe (λ e. refl) ends in
      (reads.ready ∙ has_opened, reads.queued ∙ none_waits, reads.passed_on ∙ passed)
