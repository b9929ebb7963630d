-- ===== src/Sockets/WebSocketTransport.antt =====
-- WebSocketTransport of lib/transport.ts.
use mathlib.Core.Option
use sshclient_sftp_wasm.Base.{
  ℕ, Bool, true, false, Option, none, some, List, [], ◌∷◌, ◌++◌, take, drop, codes, Bytes, Text,
}
use sshclient_sftp_wasm.Client.Errors.{Thrown, plain_error}
use sshclient_sftp_wasm.Client.Program.{Program, pure, throw}
use sshclient_sftp_wasm.Tunnel.State.{ReadyState, ws_connecting, ws_open, ws_closed}

-- A Uint8Array is a view of a part of a buffer.
pub record Uint8Array : Type 0 where
  pub buffer : Bytes
  pub offset : ℕ
  pub count : ℕ

-- Its elements.
abbrev pub elements : Uint8Array → Bytes
elements v = take v.count (drop v.offset v.buffer)

-- What happens to the world: the socket's calls, the owner's callbacks, the promise of `connect`.
pub data SocketEffect : Type 0 where
  opened : Text → Option (List Text) → SocketEffect
  sent : Bytes → SocketEffect
  socket_close : SocketEffect
  data_out : Bytes → SocketEffect
  error_out : Thrown → SocketEffect
  close_out : SocketEffect
  connect_resolved : SocketEffect
  connect_rejected : Thrown → SocketEffect

pub record WebSocketTransport : Type 0 where
  pub url : Text
  pub protocols : Option (List Text)
  pub has_on_data : Bool
  pub has_on_error : Bool
  pub has_on_close : Bool
  pub ws : Option ReadyState
  -- the object that `setCallbacks` was given last
  pub callbacks : Option ℕ
  pub effects : List SocketEffect

abbrev pub emit : SocketEffect → WebSocketTransport → WebSocketTransport
emit e t = record t { effects = t.effects ++ (e ∷ []) }

abbrev pub call_back : Bool → SocketEffect → WebSocketTransport → WebSocketTransport
call_back true e t = emit e t
call_back false e t = t

unfoldable set_callbacks : ℕ → WebSocketTransport → WebSocketTransport
set_callbacks object t = record t { callbacks = some object }

-- `failure` is what `new WebSocket` throws, if it does.
unfoldable pub connect : Option Thrown → WebSocketTransport → WebSocketTransport
connect none t = record (emit (opened t.url t.protocols) t) { ws = some ws_connecting }
connect (some failure) t = emit (connect_rejected failure) t

unfoldable pub on_open : WebSocketTransport → WebSocketTransport
on_open t = emit connect_resolved (record t { ws = Option.map (λ s. ws_open) t.ws })

abbrev pub socket_error : Thrown
socket_error = plain_error (codes "WebSocket error")

unfoldable pub on_error : WebSocketTransport → WebSocketTransport
on_error t =
    emit (connect_rejected socket_error) (call_back t.has_on_error (error_out socket_error) t)

-- A message is binary or text; text is not for the owner.
pub data Message : Type 0 where
  binary : Bytes → Message
  text_message : Text → Message

unfoldable pub on_message : Message → WebSocketTransport → WebSocketTransport
on_message (binary bytes) t = call_back t.has_on_data (data_out bytes) t
on_message (text_message s) t = t

unfoldable pub on_close : WebSocketTransport → WebSocketTransport
on_close t = call_back t.has_on_close close_out (record t { ws = Option.map (λ s. ws_closed) t.ws })

abbrev pub close_socket : Option ReadyState → WebSocketTransport → WebSocketTransport
close_socket none t = t
close_socket (some s) t = record (emit socket_close t) { ws = none }

unfoldable pub disconnect : WebSocketTransport → WebSocketTransport
disconnect t = close_socket t.ws t

abbrev pub is_open : Option ReadyState → Bool
is_open (some ws_open) = true
is_open s = false

-- `this.ws.send(data.buffer)`, if the socket is open
abbrev pub send_on : Bool → Uint8Array → Program WebSocketTransport (Unit {0})
send_on true v t = pure tt (emit (sent v.buffer) t)
send_on false v t = throw (plain_error (codes "WebSocket is not connected")) t

unfoldable pub send : Uint8Array → Program WebSocketTransport (Unit {0})
send v t = send_on (is_open t.ws) v t
