-- ===== src/Tests/Pipe.antt =====
-- The tunnel of lib/aws-iot-tunnel.ts as a pipe, over the wire format of FixedWire.
use sshclient_sftp_wasm.Base.{
  codes, ◌≡◌, refl, pos, true, false, some, [], ◌∷◌, concat, each, arith,
}
use sshclient_sftp_wasm.FixedWire.{fixed, fixed-ReadsBack, fixed-Consumes}
use sshclient_sftp_wasm.Messages.Class.{v3, Received}
use sshclient_sftp_wasm.Tunnel.State.{
  source, ws_open, SecureTunnelConfig, Callbacks, TunnelCore, new_transport, type_data,
  type_service_ids,
}
use sshclient_sftp_wasm.Tunnel.Url.{
  build_websocket_url, encode_uri_component, encode_unit, is_unescaped,
}
use sshclient_sftp_wasm.Tunnel.Pipe.{Pipe, shut_pipe, sends, receives, ReadsAs, perform, carried}
use sshclient_sftp_wasm.Tunnel.Pipe.Refinement.{run_refines}
use sshclient_sftp_wasm.Tunnel.Pipe.Opening.{opened}
use sshclient_sftp_wasm.Tunnel.Pipe.Delivery.{handshake_delivers}

abbrev config : SecureTunnelConfig
config = record {
  region = codes "eu-west-1";
  access_token = codes "token";
  client_mode = source;
  service_id = some (codes "SSH");
  protocol = some v3;
}

config_url :
    build_websocket_url config
    ≡ some (
        codes
          "wss://data.tunneling.iot.eu-west-1.amazonaws.com/tunnel?local-proxy-mode=source&access-token=token")
unfolding build_websocket_url encode_uri_component encode_unit is_unescaped
config_url = refl

abbrev all_set : Callbacks
all_set = record { on_data = true; on_error = true; on_close = true }

-- A source on an open socket with nothing sent yet.
abbrev connected : TunnelCore
connected = record {
  config = config;
  protocol = v3;
  callbacks = all_set;
  ws = some ws_open;
  stream_id = pos 1;
  connection_id = 1;
  is_connected = true;
  tunnel_ready = false;
  message_queue = [];
  effects = [];
}

abbrev service_ids : Received
service_ids = record { type = pos type_service_ids; stream_id = pos 0; payload = [] }

abbrev peer_data : Received
peer_data = record { type = pos type_data; stream_id = pos 1; payload = 5 ∷ [] }

connected-ReadsAs : ReadsAs fixed source v3 shut_pipe connected
connected-ReadsAs = record {
  in_mode = refl;
  in_protocol = refl;
  socket_open = refl;
  connected = refl;
  ready = refl;
  queued = refl;
  passed_on = refl;
  sendable = record {
    stream_id = omega arith;
    connection_id = omega arith;
    service_id = omega arith;
    short = omega arith;
  };
}

-- What the pipe makes of data, the handshake's end and more data.
abbrev after_all : Pipe
after_all = record { passed = 1 ∷ 2 ∷ 3 ∷ 4 ∷ []; waiting = []; has_opened = true }

run_refines_example : ReadsAs fixed source v3 after_all (
    each
      (perform fixed)
      (sends (1 ∷ 2 ∷ [])
        ∷ receives peer_data
        ∷ sends (3 ∷ [])
        ∷ receives service_ids
        ∷ sends (4 ∷ [])
        ∷ [])
      connected)
run_refines_example =
    run_refines fixed fixed-ReadsBack fixed-Consumes source v3
      (sends (1 ∷ 2 ∷ [])
        ∷ receives peer_data
        ∷ sends (3 ∷ [])
        ∷ receives service_ids
        ∷ sends (4 ∷ [])
        ∷ [])
      shut_pipe connected (tt, ((refl, omega arith), (tt, ((refl, omega arith), (tt, tt)))))
      connected-ReadsAs

handshake_delivers_example :
    let c =
      each
        (perform fixed)
        (sends (1 ∷ 2 ∷ []) ∷ sends (3 ∷ []) ∷ receives service_ids ∷ sends (4 ∷ []) ∷ [])
        (opened fixed config all_set) in
    (c.tunnel_ready ≡ true)
    × (concat c.message_queue ≡ [])
    × (carried fixed v3 c.effects ≡ 1 ∷ 2 ∷ 3 ∷ 4 ∷ [])
unfolding new_transport
handshake_delivers_example =
    handshake_delivers fixed fixed-ReadsBack fixed-Consumes config all_set
      (sends (1 ∷ 2 ∷ []) ∷ sends (3 ∷ []) ∷ []) (sends (4 ∷ []) ∷ []) service_ids config_url
      (omega arith) (omega arith) (tt, (tt, ((refl, omega arith), (tt, tt)))) refl
