-- ===== src/Tests/Tunnel.antt =====
-- The tunnel of lib/aws-iot-tunnel.ts over the wire format of FixedWire.
use sshclient_sftp_wasm.Base.{
  All, codes, ◌≡◌, refl, sym, ◌∙◌, ap, inl, pos, true, false, none, some, List, [], ◌∷◌, ◌++◌, map,
  concat, each, take, drop, arith, Bytes, append-nil, take-append-drop,
}
use sshclient_sftp_wasm.FixedWire.{fixed, fixed-ReadsBack, fixed-Consumes, fixed-Sizes}
use sshclient_sftp_wasm.Messages.Class.{v2, Received}
use sshclient_sftp_wasm.Tunnel.State.{
  sent, source, ws_open, ws_closed, SecureTunnelConfig, Callbacks, data_out, TunnelCore,
  new_transport, SecureTunnelTransport, type_service_ids, type_session_reset,
}
use sshclient_sftp_wasm.Tunnel.Url.{
  build_websocket_url, encode_uri_component, encode_unit, is_unescaped, utf8, hex_digit,
}
use sshclient_sftp_wasm.Tunnel.Token.{CarriesToken, build_websocket_url-CarriesToken}
use sshclient_sftp_wasm.Tunnel.Outgoing.{frame, send, send_data_frame}
use sshclient_sftp_wasm.Tunnel.Incoming.{dispatch, handle_message, handle_incoming_data}
use sshclient_sftp_wasm.Tunnel.Lifecycle.{Event, connects, opens, closes, sends, delivers, step}
use sshclient_sftp_wasm.Tunnel.Stream.{
  Fits, at_rest, handle_incoming_data-append, frames_reassembled,
}
use sshclient_sftp_wasm.Tunnel.Chunks.{sent_bytes, data_frame}
use sshclient_sftp_wasm.Tunnel.Transfer.{IsSendable, send_data_frame-Fits, sent_arrives}
use sshclient_sftp_wasm.Tunnel.Queue.{frames_of, handle_message-send}
use sshclient_sftp_wasm.Tunnel.Handshake.{IsWaiting, run_before_handshake}
use sshclient_sftp_wasm.Tunnel.Reconnect.{handle_message_loses_queue, reconnect_keeps_partial}

abbrev sample_config : SecureTunnelConfig
sample_config = record {
  region = codes "eu-west-1";
  access_token = codes "a&b c";
  client_mode = source;
  service_id = some (codes "SSH");
  protocol = none;
}

abbrev all_set : Callbacks
all_set = record { on_data = true; on_error = true; on_close = true }

-- A source that is connected and waits for SERVICE_IDS.
abbrev greeted : TunnelCore
greeted = record {
  config = sample_config;
  protocol = v2;
  callbacks = all_set;
  ws = some ws_open;
  stream_id = pos 1;
  connection_id = 1;
  is_connected = true;
  tunnel_ready = false;
  message_queue = [];
  effects = [];
}

abbrev ready : TunnelCore
ready = record greeted { tunnel_ready = true }

abbrev service_ids : Received
service_ids = record { type = pos type_service_ids; stream_id = pos 0; payload = [] }

abbrev session_reset : Received
session_reset = record { type = pos type_session_reset; stream_id = pos 0; payload = [] }

ready-IsSendable : IsSendable ready
ready-IsSendable = record {
  stream_id = omega arith;
  connection_id = omega arith;
  service_id = omega arith;
  short = omega arith;
}

abbrev hello : Bytes
hello = 104 ∷ 105 ∷ []

hello_sent : Bytes
hello_sent = sent_bytes (send fixed hello ready).effects

-- The frame of `hello` arrives in two pieces, the first of them one byte of the length.
sent_arrives_example :
    (given : List Bytes) × (concat given ≡ hello)
    × (each
          (handle_incoming_data fixed)
          (take 1 hello_sent ∷ drop 1 hello_sent ∷ [])
          (at_rest greeted)
        ≡ at_rest (record greeted { effects = map data_out given }))
unfolding hello_sent
sent_arrives_example =
    sent_arrives fixed fixed-ReadsBack fixed-Consumes fixed-Sizes ready greeted hello
      (take 1 hello_sent ∷ drop 1 hello_sent ∷ []) refl refl refl ready-IsSendable refl refl
      (sym (
        ap (◌++◌ (take 1 hello_sent)) (append-nil (drop 1 hello_sent))
        ∙ take-append-drop 1 hello_sent))

send_data_frame-Fits_example :
    (ks : List Bytes) × (concat ks ≡ hello)
    × All Fits (map (data_frame fixed ready) ks)
    × ((send_data_frame fixed hello ready).effects
        ≡ ready.effects ++ map (λ k. sent (frame (data_frame fixed ready k))) ks)
send_data_frame-Fits_example =
    send_data_frame-Fits fixed fixed-Sizes ready hello refl ready-IsSendable

handle_incoming_data-append_example :
    handle_incoming_data fixed
      (3 ∷ 1 ∷ 2 ∷ 3 ∷ [])
      (handle_incoming_data fixed (0 ∷ []) (at_rest ready))
    ≡ handle_incoming_data fixed (0 ∷ 3 ∷ 1 ∷ 2 ∷ 3 ∷ []) (at_rest ready)
handle_incoming_data-append_example =
    handle_incoming_data-append fixed (0 ∷ []) (3 ∷ 1 ∷ 2 ∷ 3 ∷ []) (at_rest ready)

frames_reassembled_example :
    each (handle_incoming_data fixed) ((0 ∷ []) ∷ (1 ∷ 9 ∷ 0 ∷ []) ∷ (0 ∷ []) ∷ []) (at_rest ready)
    ≡ at_rest (each (dispatch fixed) ((9 ∷ []) ∷ [] ∷ []) ready)
frames_reassembled_example =
    frames_reassembled fixed ((9 ∷ []) ∷ [] ∷ []) ((0 ∷ []) ∷ (1 ∷ 9 ∷ 0 ∷ []) ∷ (0 ∷ []) ∷ [])
      ready (omega arith) (unfold frame in refl)

handle_message-send_example :
    let ready = record greeted { tunnel_ready = true } in
    (handle_message fixed service_ids (each (send fixed) (hello ∷ hello ∷ []) greeted)
      ≡ record ready {
        message_queue = [];
        effects = greeted.effects ++ frames_of fixed ready (hello ∷ hello ∷ []);
      })
    × (handle_message fixed service_ids (each (send fixed) (hello ∷ hello ∷ []) greeted)
        ≡ each (send fixed) (hello ∷ hello ∷ []) (handle_message fixed service_ids greeted))
handle_message-send_example =
    handle_message-send fixed service_ids (hello ∷ hello ∷ []) greeted (inl (refl, refl)) refl refl
      refl

abbrev early_calls : List Event
early_calls = connects true ∷ sends hello ∷ opens ∷ sends (1 ∷ []) ∷ []

run_before_handshake_example :
    IsWaiting fixed
      (hello ∷ (1 ∷ []) ∷ [])
      (each (step fixed) early_calls (new_transport sample_config all_set)).core
run_before_handshake_example =
    run_before_handshake fixed sample_config all_set early_calls (tt, (tt, (tt, (tt, tt))))

build_websocket_url-CarriesToken_example :
    CarriesToken sample_config (build_websocket_url sample_config)
build_websocket_url-CarriesToken_example =
    build_websocket_url-CarriesToken sample_config (omega arith)

encode_sample_token : encode_uri_component sample_config.access_token ≡ some (codes "a%26b%20c")
unfolding encode_uri_component encode_unit is_unescaped utf8 hex_digit
encode_sample_token = refl

abbrev closed_queue : TunnelCore
closed_queue = record greeted { ws = some ws_closed; message_queue = hello ∷ [] }

handle_message_loses_queue_example :
    handle_message fixed service_ids closed_queue
    ≡ record closed_queue { tunnel_ready = true; message_queue = [] }
handle_message_loses_queue_example =
    handle_message_loses_queue fixed service_ids closed_queue (inl (refl, refl)) (λ e. cc e)

abbrev after_reset : TunnelCore
after_reset =
    handle_message fixed service_ids
      (handle_message fixed session_reset (record greeted { message_queue = hello ∷ [] }))

abbrev reconnected : SecureTunnelTransport
reconnected = step fixed opens (
    step fixed (connects true)
      (step fixed closes (record { core = ready; receive_buffer = 0 ∷ 9 ∷ 1 ∷ [] })))

reconnect_keeps_partial_example :
    step fixed (delivers (0 ∷ 2 ∷ 8 ∷ 5 ∷ [])) reconnected
    ≡ record reconnected { receive_buffer = 0 ∷ 9 ∷ 1 ∷ 0 ∷ 2 ∷ 8 ∷ 5 ∷ [] }
reconnect_keeps_partial_example =
    reconnect_keeps_partial fixed 0 9 (1 ∷ []) (0 ∷ 2 ∷ 8 ∷ 5 ∷ []) ready (omega arith)
