-- ===== src/Tunnel/Incoming.antt =====
-- What SecureTunnelTransport does with the bytes that its socket delivers.
use sshclient_sftp_wasm.Base.{
  ℕ, zero, suc, pos, ◌+◌, ◌*◌, is_nat, true, false, [], ◌∷◌, ◌++◌, length, take, drop, ltb,
  if◌then◌else◌, Bytes, Option, none, some,
}
use sshclient_sftp_wasm.Wire.{Wire}
use sshclient_sftp_wasm.Messages.Props.{no_props}
use sshclient_sftp_wasm.Messages.Fields.{ok, thrown, stuck}
use sshclient_sftp_wasm.Messages.Class.{Received, decode_message}
use sshclient_sftp_wasm.Tunnel.State.{
  source, destination, ReadyState, TunnelCore, SecureTunnelTransport, emit, call_back, data_out,
  error_out, close_out, socket_close, type_data, type_stream_start, type_stream_reset,
  type_session_reset, type_service_ids,
}
use sshclient_sftp_wasm.Tunnel.Outgoing.{send_control_message, process_queued_messages}

module _ (w : Wire) where
  -- `if (this.ws) { … }` of `disconnect`.
  unfoldable pub close_socket : Option ReadyState → TunnelCore → TunnelCore
  close_socket none c = c
  close_socket (some s) c =
      record (emit socket_close (
        send_control_message w
          (record no_props { type = some (pos type_stream_reset); stream_id = some c.stream_id })
          c)) { ws = none }

  unfoldable pub disconnect : TunnelCore → TunnelCore
  disconnect c = record (close_socket c.ws c) { is_connected = false; tunnel_ready = false }

  -- The tunnel is ready: what was queued goes out.
  abbrev make_ready : TunnelCore → TunnelCore
  make_ready c = process_queued_messages w (record c { tunnel_ready = true })

  -- A message that lacks a stream id has the prototype's 0, so the tests of it against undefined
  -- and null pass; so does the test of the payload, also when it is empty.
  unfoldable pub handle_message : Received → TunnelCore → TunnelCore
  handle_message m c =
      if is_nat type_data m.type
      then call_back c.callbacks.on_data (data_out m.payload) c
      else if is_nat type_stream_start m.type
      then elim c.config.client_mode [
        | destination ↦ make_ready (record c { stream_id = m.stream_id })
        | source ↦ c
      ]
      else if is_nat type_stream_reset m.type
      then call_back c.callbacks.on_close close_out c
      else if is_nat type_session_reset m.type
      then disconnect c
      else if is_nat type_service_ids m.type
      then elim c.config.client_mode [ source ↦ make_ready c | destination ↦ c ]
      else c

  -- One frame: decoded and handled, or an error that is reported.
  unfoldable pub dispatch : Bytes → TunnelCore → TunnelCore
  dispatch s c = elim (decode_message w c.protocol s) [
    | ok m ↦ handle_message m c
    | thrown ↦ call_back c.callbacks.on_error error_out c
    | stuck ↦ c
  ]

  -- The loop of `handleIncomingData`: while the buffer holds the two bytes of a length and the
  -- frame that it announces, the frame is taken off and handled.
  unfoldable pub receive_loop : Bytes → ℕ → TunnelCore → SecureTunnelTransport
  receive_loop [] fuel c = record { core = c; receive_buffer = [] }
  receive_loop (b ∷ []) fuel c = record { core = c; receive_buffer = b ∷ [] }
  receive_loop (hi ∷ lo ∷ s) zero c = record { core = c; receive_buffer = hi ∷ lo ∷ s }
  receive_loop (hi ∷ lo ∷ s) (suc fuel) c =
      let frame_length = hi * 256 + lo in
      let rest = receive_loop (drop frame_length s) fuel (dispatch (take frame_length s) c) in
      if ltb (length s) frame_length
      then record { core = c; receive_buffer = hi ∷ lo ∷ s }
      else rest

  -- Each round takes two bytes at least, so the length is fuel enough.
  unfoldable pub handle_incoming_data : Bytes → SecureTunnelTransport → SecureTunnelTransport
  unfolding receive_loop
  handle_incoming_data bytes t =
      receive_loop (t.receive_buffer ++ bytes) (length (t.receive_buffer ++ bytes)) t.core
