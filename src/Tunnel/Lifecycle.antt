-- ===== src/Tunnel/Lifecycle.antt =====
-- SecureTunnelTransport in lib/aws-iot-tunnel.ts: `connect`, the socket's handlers that it installs,
-- and a transport that its owner and its socket drive.
use mathlib.Core.Option
use sshclient_sftp_wasm.Base.{
  pos, Bool, true, false, Option, none, some, [], ◌∷◌, if◌then◌else◌, Bytes, Text,
}
use sshclient_sftp_wasm.Wire.{Wire}
use sshclient_sftp_wasm.Messages.Props.{no_props}
use sshclient_sftp_wasm.Tunnel.State.{
  ClientMode, source, destination, ReadyState, ws_connecting, ws_open, ws_closed, socket, error_out,
  close_out, resolved, rejected, TunnelCore, SecureTunnelTransport, emit, call_back, is_truthy,
  type_stream_start, type_service_ids,
}
use sshclient_sftp_wasm.Tunnel.Url.{build_websocket_url, subprotocol}
use sshclient_sftp_wasm.Tunnel.Outgoing.{send_control_message, send}
use sshclient_sftp_wasm.Tunnel.Incoming.{disconnect, handle_incoming_data}

-- `constructed` says whether `new WebSocket` returns; if it throws, `connect` rejects, and so it does
-- where there is no URL.
unfoldable pub open_socket : Bool → Option Text → TunnelCore → TunnelCore
open_socket constructed none c = emit rejected c
open_socket true (some url) c = record (emit (socket url (subprotocol c.protocol)) c) {
  ws = some ws_connecting;
}
open_socket false (some url) c = emit rejected c

unfoldable pub connect : Bool → TunnelCore → TunnelCore
connect constructed c = open_socket constructed (build_websocket_url c.config) c

-- What the owner calls, and what the socket reports. `ready_state` is a change of the socket's
-- readyState with no event, as when the peer begins to close. The `stale` ones are reports of a
-- socket that is no longer `this.ws`, since `disconnect` or another `connect` has replaced it: its
-- handlers are still installed. Its errors and its messages do what those of the latest socket do.
pub data Event : Type 0 where
  connects : Bool → Event
  opens errors closes disconnects stale_opens stale_closes : Event
  delivers sends : Bytes → Event
  ready_state : ReadyState → Event

abbrev pub on_core : (TunnelCore → TunnelCore) → SecureTunnelTransport → SecureTunnelTransport
on_core f t = record t { core = f t.core }

module _ (w : Wire) where
  -- The first message of the handshake; a destination without a service id sends none.
  unfoldable pub greet : ClientMode → TunnelCore → TunnelCore
  greet destination c =
      if is_truthy c.config.service_id
      then send_control_message w
          (record no_props {
            type = some (pos type_service_ids);
            available_service_ids = Option.map (λ s. s ∷ []) c.config.service_id;
          })
          c
      else c
  greet source c =
      send_control_message w
        (record no_props {
          type = some (pos type_stream_start);
          stream_id = some c.stream_id;
          service_id = c.config.service_id;
        })
        c

  -- The browser sets the readyState before it fires the event.
  unfoldable pub on_open : TunnelCore → TunnelCore
  on_open c = emit resolved (
      greet c.config.client_mode
        (record c { ws = Option.map (λ _. ws_open) c.ws; is_connected = true }))

  unfoldable pub on_error : TunnelCore → TunnelCore
  on_error c = emit rejected (call_back c.callbacks.on_error error_out c)

  unfoldable pub on_close : TunnelCore → TunnelCore
  on_close c = call_back c.callbacks.on_close close_out (record c {
    ws = Option.map (λ _. ws_closed) c.ws;
    is_connected = false;
    tunnel_ready = false;
  })

  -- The same two handlers, of a socket that has been replaced: they change no readyState.
  unfoldable pub stale_open : TunnelCore → TunnelCore
  stale_open c = emit resolved (greet c.config.client_mode (record c { is_connected = true }))

  unfoldable pub stale_close : TunnelCore → TunnelCore
  stale_close c =
      call_back c.callbacks.on_close close_out
        (record c { is_connected = false; tunnel_ready = false })

  unfoldable pub step : Event → SecureTunnelTransport → SecureTunnelTransport
  step (connects constructed) t = on_core (connect constructed) t
  step opens t = on_core on_open t
  step errors t = on_core on_error t
  step closes t = on_core on_close t
  step disconnects t = on_core (disconnect w) t
  step stale_opens t = on_core stale_open t
  step stale_closes t = on_core stale_close t
  step (delivers bytes) t = handle_incoming_data w bytes t
  step (sends bytes) t = on_core (send w bytes) t
  step (ready_state s) t = on_core (λ c. record c { ws = Option.map (λ _. s) c.ws }) t
