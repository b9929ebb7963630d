-- ===== src/Tunnel/Outgoing.antt =====
-- What SecureTunnelTransport sends: frames, control messages and data in chunks.
use sshclient_sftp_wasm.Base.{
  ℕ, zero, suc, ◌*◌, ◌/◌, ◌%◌, pos, Bool, true, false, not, ◌&&◌, none, some, List, [], ◌∷◌, ◌++◌,
  length, take, drop, if◌then◌else◌, Bytes,
}
use sshclient_sftp_wasm.Wire.{Wire}
use sshclient_sftp_wasm.Messages.Props.{Props, no_props}
use sshclient_sftp_wasm.Messages.Class.{Protocol, v1, v3, encode_message}
use sshclient_sftp_wasm.Tunnel.State.{ws_open, sent, TunnelCore, emit, is_truthy, type_data}

-- `setUint16(0, data.length, false)` stores the length modulo 2^16, high byte first.
unfoldable pub frame : Bytes → Bytes
frame bytes = (length bytes / 256 % 256) ∷ (length bytes % 256) ∷ bytes

-- Without an open socket the frame is dropped, with a warning on the console.
unfoldable pub send_frame : Bytes → TunnelCore → TunnelCore
send_frame bytes c = elim c.ws [
  | none ↦ c
  | some s ↦ elim s [ ws_open ↦ emit (sent (frame bytes)) c | _ ↦ c ]
]

abbrev pub max_payload_size : ℕ
max_payload_size = 63 * 1024

abbrev pub is_v1 : Protocol → Bool
is_v1 v1 = true
is_v1 p = false

abbrev pub is_v3 : Protocol → Bool
is_v3 v3 = true
is_v3 p = false

-- The object that `sendDataFrame` builds for one chunk.
unfoldable pub data_message : TunnelCore → Bytes → Props
data_message c chunk = record no_props {
  type = some (pos type_data);
  stream_id = some c.stream_id;
  payload = some chunk;
  service_id =
      if is_truthy c.config.service_id && not (is_v1 c.protocol) then c.config.service_id else none;
  connection_id = if is_v3 c.protocol then some c.connection_id else none;
}

module _ (w : Wire) where
  unfoldable pub send_control_message : Props → TunnelCore → TunnelCore
  send_control_message p c = send_frame (encode_message w c.protocol p) c

  -- The loop of `sendDataFrame`; the list is `data` from `i` on.
  unfoldable pub send_chunks : ℕ → Bytes → TunnelCore → TunnelCore
  send_chunks fuel [] c = c
  send_chunks zero (b ∷ s) c = c
  send_chunks (suc fuel) (b ∷ s) c =
      let chunk = take max_payload_size (b ∷ s) in
      send_chunks fuel (drop max_payload_size (b ∷ s))
        (send_frame (encode_message w c.protocol (data_message c chunk)) c)

  -- Every round takes a byte at least, so the length is fuel enough.
  unfoldable pub send_data_frame : Bytes → TunnelCore → TunnelCore
  unfolding send_chunks
  send_data_frame bytes c = send_chunks (length bytes) bytes c

  -- `while (queue.length > 0) sendDataFrame(queue.shift())`
  unfoldable pub flush : List Bytes → TunnelCore → TunnelCore
  flush [] c = c
  flush (msg ∷ rest) c = flush rest (send_data_frame msg (record c { message_queue = rest }))

  unfoldable pub process_queued_messages : TunnelCore → TunnelCore
  process_queued_messages c = flush c.message_queue c

  unfoldable pub send : Bytes → TunnelCore → TunnelCore
  send bytes c = elim c.ws [
    | none ↦ queued
    | some s ↦ if c.is_connected && c.tunnel_ready then send_data_frame bytes c else queued
  ]
    where
      queued : TunnelCore
      queued = record c { message_queue = c.message_queue ++ (bytes ∷ []) }
