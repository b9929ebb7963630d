-- ===== src/Tunnel/Reconnect.antt =====
-- What SecureTunnelTransport of lib/aws-iot-tunnel.ts keeps where its connection ends.
use sshclient_sftp_wasm.Base.{
  ℕ, zero, suc, ◌+◌, ◌*◌, ◌<◌, ◌≡◌, ◌≢◌, refl, ap, ◌∙◌, pos, true, false, none, some, Option, List,
  [], ◌∷◌, ◌++◌, length, drop, arith, Bytes, inl,
}
use sshclient_sftp_wasm.Wire.{Wire}
use sshclient_sftp_wasm.Messages.Class.{Received}
use sshclient_sftp_wasm.Tunnel.State.{
  source, ReadyState, ws_connecting, ws_open, ws_closing, ws_closed, TunnelCore,
  SecureTunnelTransport, type_session_reset, type_service_ids,
}
use sshclient_sftp_wasm.Tunnel.Outgoing.{
  max_payload_size, send_frame, send_control_message, send_chunks, send_data_frame, flush,
  process_queued_messages,
}
use sshclient_sftp_wasm.Tunnel.Incoming.{
  close_socket, disconnect, handle_message, handle_incoming_data,
}
use sshclient_sftp_wasm.Tunnel.Lifecycle.{connects, opens, closes, delivers, step}
use sshclient_sftp_wasm.Tunnel.Stream.{receive_loop_wait}
use sshclient_sftp_wasm.Tunnel.Chunks.{send_frame-cases}
use sshclient_sftp_wasm.Tunnel.Queue.{EndsHandshake, agreed_stream, handle_handshake}

send_frame_shut : (m : Bytes) (c : TunnelCore) → c.ws ≢ some ws_open → send_frame m c ≡ c
unfolding send_frame
send_frame_shut m c h = go c.ws refl
  where
    go : (o : Option ReadyState) → c.ws ≡ o → send_frame m c ≡ c
    go none e = ground arith
    go (some ws_connecting) e = ground arith
    go (some ws_open) e = absurd (h e)
    go (some ws_closing) e = ground arith
    go (some ws_closed) e = ground arith

module _ (w : Wire) where
  send_chunks_shut :
      (fuel : ℕ) (s : Bytes) (c : TunnelCore) → c.ws ≢ some ws_open → send_chunks w fuel s c ≡ c
  unfolding send_chunks
  send_chunks_shut fuel [] c h = refl
  send_chunks_shut zero (b ∷ s) c h = refl
  send_chunks_shut (suc fuel) (b ∷ s) c h =
      ap (send_chunks w fuel (drop max_payload_size (b ∷ s))) (send_frame_shut _ c h)
      ∙ send_chunks_shut fuel (drop max_payload_size (b ∷ s)) c h

  flush_shut :
      (ds : List Bytes) (c : TunnelCore)
      → c.ws ≢ some ws_open
      → flush w ds (record c { message_queue = ds }) ≡ record c { message_queue = [] }
  unfolding flush send_data_frame
  flush_shut [] c h = refl
  flush_shut (d ∷ ds) c h =
      ap (flush w ds) (
        unfold send_data_frame in send_chunks_shut (length d) d (record c { message_queue = ds }) h)
      ∙ flush_shut ds c h

  -- Where the message that ends the handshake comes on a socket that is not open, the tunnel becomes
  -- ready with the agreed stream id, the queue is emptied and nothing is sent: what was queued is
  -- lost.
  pub handle_message_loses_queue :
      (m : Received) (c : TunnelCore)
      → EndsHandshake m c
      → c.ws ≢ some ws_open
      → handle_message w m c
        ≡ record c { stream_id = agreed_stream m c; tunnel_ready = true; message_queue = [] }
  handle_message_loses_queue m c e h =
      handle_handshake w m c e
      ∙ (unfold process_queued_messages in
          flush_shut c.message_queue
            (record c { stream_id = agreed_stream m c; tunnel_ready = true }) h)

  handle_reset :
      (m : Received) (c : TunnelCore)
      → m.type ≡ pos type_session_reset
      → handle_message w m c ≡ disconnect w c
  unfolding handle_message
  handle_reset m c e = ground arith

  -- What `disconnect` leaves alone, and that there is no socket behind it.
  close_socket_leaves :
      (o : Option ReadyState) (c : TunnelCore)
      → c.ws ≡ o
      → ((close_socket w o c).ws ≡ none) × ((close_socket w o c).config ≡ c.config)
  unfolding close_socket send_control_message
  close_socket_leaves none c e = (e, refl)
  close_socket_leaves (some s) c e =
      (refl, send_frame-cases (λ d. d.config ≡ c.config) _ c refl refl)

  -- In source mode a SESSION_RESET and a SERVICE_IDS behind it leave the transport without a socket
  -- and not connected, yet ready, and with its queue thrown away.
  pub reset_then_ready :
      (m n : Received) (c : TunnelCore)
      → c.config.client_mode ≡ source
      → m.type ≡ pos type_session_reset
      → n.type ≡ pos type_service_ids
      → let d = handle_message w n (handle_message w m c) in
        (d.ws ≡ none) × (d.is_connected ≡ false) × (d.tunnel_ready ≡ true) × (d.message_queue ≡ [])
  unfolding disconnect
  reset_then_ready m n c mode reset ids =
      let left = close_socket_leaves c.ws c refl in
      let d = disconnect w c in
      let after : handle_message w n (handle_message w m c)
          ≡ record d { stream_id = agreed_stream n d; tunnel_ready = true; message_queue = [] } =
        ap (handle_message w n) (handle_reset m c reset)
        ∙ handle_message_loses_queue n d (inl (ap (λ k. k.client_mode) left.1 ∙ mode, ids))
            (λ e. cc (left.0, e)) in
      rw after (left.0, refl, refl, refl)

  -- A frame that the old connection left unfinished stays in the receive buffer, and the first bytes
  -- of the new connection are taken for the rest of it: until it is full, nothing is dispatched.
  pub reconnect_keeps_partial :
      (hi lo : ℕ) (s bytes : Bytes) (c : TunnelCore)
      → length (s ++ bytes) < hi * 256 + lo
      → let t : SecureTunnelTransport = record { core = c; receive_buffer = hi ∷ lo ∷ s } in
        let again = step w opens (step w (connects true) (step w closes t)) in
        step w (delivers bytes) again ≡ record again { receive_buffer = hi ∷ lo ∷ s ++ bytes }
  unfolding step handle_incoming_data
  reconnect_keeps_partial hi lo s bytes c h =
      receive_loop_wait w hi lo (s ++ bytes) (length (hi ∷ lo ∷ s ++ bytes)) _ h
