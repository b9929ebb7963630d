-- ===== src/Tunnel/State.antt =====
-- The configuration and the fields of SecureTunnelTransport in lib/aws-iot-tunnel.ts, and what its
-- methods do to the world.
use sshclient_sftp_wasm.Base.{
  ℕ, ℤ, pos, Bool, true, false, Option, none, some, List, [], ◌∷◌, ◌++◌, if◌then◌else◌, Bytes, Text,
}
use sshclient_sftp_wasm.Messages.Class.{Protocol, v2}

pub data ClientMode : Type 0 where
  source destination : ClientMode

pub record SecureTunnelConfig : Type 0 where
  pub region : Text
  pub access_token : Text
  pub client_mode : ClientMode
  pub service_id : Option Text
  pub protocol : Option Protocol

-- The readyState of a WebSocket.
pub data ReadyState : Type 0 where
  ws_connecting ws_open ws_closing ws_closed : ReadyState

pub data Effect : Type 0 where
  -- `new WebSocket(url, subprotocol)`, `ws.send`, `ws.close`
  socket : Text → Text → Effect
  sent : Bytes → Effect
  socket_close : Effect
  -- the callbacks onData, onError and onClose
  data_out : Bytes → Effect
  error_out : Effect
  close_out : Effect
  -- the promise of `connect`
  resolved rejected : Effect

-- The callbacks that the owner of the transport has set.
pub record Callbacks : Type 0 where
  pub on_data : Bool
  pub on_error : Bool
  pub on_close : Bool

-- The fields other than `receiveBuffer`, and the effects so far, oldest first. `ws` is the state of
-- the latest socket, `none` for null.
pub record TunnelCore : Type 0 where
  pub config : SecureTunnelConfig
  pub protocol : Protocol
  pub callbacks : Callbacks
  pub ws : Option ReadyState
  pub stream_id : ℤ
  pub connection_id : ℕ
  pub is_connected : Bool
  pub tunnel_ready : Bool
  pub message_queue : List Bytes
  pub effects : List Effect

pub record SecureTunnelTransport : Type 0 where
  pub core : TunnelCore
  pub receive_buffer : Bytes

-- The constructor: the protocol is V2 unless the configuration names one.
unfoldable pub new_transport : SecureTunnelConfig → Callbacks → SecureTunnelTransport
new_transport c callbacks = record {
  core = record {
    config = c;
    protocol = elim c.protocol [ none ↦ v2 | some p ↦ p ];
    callbacks = callbacks;
    ws = none;
    stream_id = pos 1;
    connection_id = 1;
    is_connected = false;
    tunnel_ready = false;
    message_queue = [];
    effects = [];
  };
  receive_buffer = [];
}

abbrev pub emit : Effect → TunnelCore → TunnelCore
emit e c = record c { effects = c.effects ++ (e ∷ []) }

-- `if (this.onX) this.onX(…)`
abbrev pub call_back : Bool → Effect → TunnelCore → TunnelCore
call_back set e c = if set then emit e c else c

-- A string that is present and not empty.
abbrev pub is_truthy : Option Text → Bool
is_truthy none = false
is_truthy (some []) = false
is_truthy (some (c ∷ s)) = true

-- TunnelMessageType
abbrev pub type_data : ℕ
type_data = 1

abbrev pub type_stream_start : ℕ
type_stream_start = 2

abbrev pub type_stream_reset : ℕ
type_stream_reset = 3

abbrev pub type_session_reset : ℕ
type_session_reset = 4

abbrev pub type_service_ids : ℕ
type_service_ids = 5
