-- ===== src/Tunnel/Pipe.antt =====
-- What a connected SecureTunnelTransport of lib/aws-iot-tunnel.ts promises its owner: a pipe of
-- bytes that opens once. The specification, and how the transport's state reads as its state.
pub mod Carried
pub mod Quiet
pub mod Refinement
pub mod Passing
pub mod Opening
pub mod Delivery
use sshclient_sftp_wasm.Base.{
  ◌≡◌, ◌≢◌, refl, sym, ap, ◌∙◌, ◌⊎◌, inl, inr, IsInt32, ℤ, pos, is_nat, Bool, true, false,
  Bool-cases, Option, some, List, [], ◌∷◌, ◌++◌, map, concat, each, length, All, if◌then◌else◌,
  arith, Bytes, append_assoc, append-nil,
}
use sshclient_sftp_wasm.Wire.{Wire, ReadsBack, Consumes}
use sshclient_sftp_wasm.Messages.Fields.{Decoded, ok, thrown, stuck}
use sshclient_sftp_wasm.Messages.Class.{Protocol, Received, decode_message}
use sshclient_sftp_wasm.Tunnel.State.{
  ClientMode, source, destination, ws_open, Effect, sent, socket, socket_close, data_out, error_out,
  close_out, resolved, rejected, TunnelCore, emit, call_back, type_data, type_stream_start,
  type_stream_reset, type_session_reset, type_service_ids,
}
use sshclient_sftp_wasm.Tunnel.Outgoing.{frame, send}
use sshclient_sftp_wasm.Tunnel.Incoming.{handle_message}
use sshclient_sftp_wasm.Tunnel.Chunks.{
  chunks, IsChunk, concat-chunks, chunks-IsChunk, data_frame, send_data_frame_open, send_ready,
}
use sshclient_sftp_wasm.Tunnel.Queue.{
  EndsHandshake, agreed_stream, frames_of, frames_of-append, send_waiting, handle_handshake,
  process_open,
}
use sshclient_sftp_wasm.Tunnel.Transfer.{IsSendable, data_decoded}

-- The pipe: what has gone through, and what waits until it opens.
pub record Pipe : Type 0 where
  pub passed : Bytes
  pub waiting : Bytes
  pub has_opened : Bool

abbrev pub shut_pipe : Pipe
shut_pipe = record { passed = []; waiting = []; has_opened = false }

abbrev pub write : Bytes → Pipe → Pipe
write d p =
    if p.has_opened
    then record p { passed = p.passed ++ d }
    else record p { waiting = p.waiting ++ d }

abbrev pub open_pipe : Pipe → Pipe
open_pipe p = record { passed = p.passed ++ p.waiting; waiting = []; has_opened = true }

-- A call of `send`, or a message of the peer that is handled.
pub data Operation : Type 0 where
  sends : Bytes → Operation
  receives : Received → Operation

abbrev pub ends_handshake : ClientMode → Received → Bool
ends_handshake source m = is_nat type_service_ids m.type
ends_handshake destination m = is_nat type_stream_start m.type

-- The operations, on the pipe.
abbrev pub specified : ClientMode → Operation → Pipe → Pipe
specified mode (sends d) p = write d p
specified mode (receives m) p = if ends_handshake mode m then open_pipe p else p

-- A message that is no SESSION_RESET, with a stream id of 32 bits.
abbrev pub Continues : Operation → Type 0
Continues (sends d) = Unit
Continues (receives m) = (is_nat type_session_reset m.type ≡ false) × IsInt32 m.stream_id

module _ (w : Wire) where
  unfoldable pub perform : Operation → TunnelCore → TunnelCore
  perform (sends d) c = send w d c
  perform (receives m) c = handle_message w m c

  -- The payload of a DATA message.
  abbrev payload_of : Decoded Received → Bytes
  payload_of (ok m) = if is_nat type_data m.type then m.payload else []
  payload_of thrown = []
  payload_of stuck = []

  -- The data that the peer finds in what was sent to it: behind the two bytes of the length.
  abbrev pub carried_by : Protocol → Effect → Bytes
  carried_by q (sent (hi ∷ lo ∷ s)) = payload_of (decode_message w q s)
  carried_by q e = []

  abbrev pub carried : Protocol → List Effect → Bytes
  carried q [] = []
  carried q (e ∷ es) = carried_by q e ++ carried q es

  pub carried-append :
      (q : Protocol) (es fs : List Effect) → carried q (es ++ fs) ≡ carried q es ++ carried q fs
  carried-append q [] fs = refl
  carried-append q (e ∷ es) fs =
      ap (◌++◌ (carried_by q e)) (carried-append q es fs)
      ∙ sym (append_assoc (carried_by q e) (carried q es) (carried q fs))

  -- The transport's state reads as the pipe's, on an open socket.
  pub record ReadsAs (mode : ClientMode) (q : Protocol) (p : Pipe) (c : TunnelCore) : Type 0 where
    pub in_mode : c.config.client_mode ≡ mode
    pub in_protocol : c.protocol ≡ q
    pub socket_open : c.ws ≡ some ws_open
    pub connected : c.is_connected ≡ true
    pub ready : c.tunnel_ready ≡ p.has_opened
    pub queued : concat c.message_queue ≡ p.waiting
    pub passed_on : carried q c.effects ≡ p.passed
    pub sendable : IsSendable c
