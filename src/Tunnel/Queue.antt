-- ===== src/Tunnel/Queue.antt =====
-- The message queue of lib/aws-iot-tunnel.ts: data that is sent before the handshake is complete.
use sshclient_sftp_wasm.Base.{
  ◌≡◌, refl, sym, ap, ◌∙◌, ◌⊎◌, inl, inr, ℤ, pos, true, false, some, List, [], ◌∷◌, ◌++◌, map,
  concat, each, length, arith, Bytes, append_assoc, append-nil,
}
use sshclient_sftp_wasm.Wire.{Wire}
use sshclient_sftp_wasm.Messages.Class.{Received}
use sshclient_sftp_wasm.Tunnel.State.{
  source, destination, ws_open, Effect, sent, TunnelCore, type_stream_start, type_service_ids,
}
use sshclient_sftp_wasm.Tunnel.Outgoing.{
  frame, data_message, flush, send_data_frame, process_queued_messages, send,
}
use sshclient_sftp_wasm.Tunnel.Incoming.{handle_message}
use sshclient_sftp_wasm.Tunnel.Chunks.{chunks, data_frame, send_data_frame_open, send_ready}

-- The message that ends the handshake: SERVICE_IDS for a source, STREAM_START for a destination.
abbrev pub EndsHandshake : Received → TunnelCore → Type 0
EndsHandshake m c =
    ((c.config.client_mode ≡ source) × (m.type ≡ pos type_service_ids))
    ⊎ ((c.config.client_mode ≡ destination) × (m.type ≡ pos type_stream_start))

-- A destination takes the stream id of the source.
abbrev pub agreed_stream : Received → TunnelCore → ℤ
agreed_stream m c = elim c.config.client_mode [ source ↦ c.stream_id | destination ↦ m.stream_id ]

module _ (w : Wire) where
  -- The frames of several calls of `send`.
  abbrev pub frames_of : TunnelCore → List Bytes → List Effect
  frames_of c ds =
      concat (map (λ d. map (λ k. sent (frame (data_frame w c k))) (chunks (length d) d)) ds)

  pub frames_of-append :
      (c : TunnelCore) (ds es : List Bytes)
      → frames_of c (ds ++ es) ≡ frames_of c ds ++ frames_of c es
  frames_of-append c [] es = refl
  frames_of-append c (d ∷ ds) es =
      let fs = map (λ k. sent (frame (data_frame w c k))) (chunks (length d) d) in
      ap (◌++◌ fs) (frames_of-append c ds es)
      ∙ sym (append_assoc fs (frames_of c ds) (frames_of c es))

  flush_step :
      (d : Bytes) (ds : List Bytes) (c : TunnelCore)
      → flush w (d ∷ ds) c ≡ flush w ds (send_data_frame w d (record c { message_queue = ds }))
  unfolding flush
  flush_step d ds c = refl

  flush_open :
      (ds : List Bytes) (c : TunnelCore)
      → c.ws ≡ some ws_open
      → flush w ds (record c { message_queue = ds })
        ≡ record c { message_queue = []; effects = c.effects ++ frames_of c ds }
  unfolding data_message
  flush_open [] c o =
      unfold flush in
      ap (λ es. record c { message_queue = []; effects = es }) (sym (append-nil c.effects))
  flush_open (d ∷ ds) c o =
      let fs = map (λ k. sent (frame (data_frame w c k))) (chunks (length d) d) in
      flush_step d ds (record c { message_queue = d ∷ ds })
      ∙ ap (flush w ds) (send_data_frame_open w d (record c { message_queue = ds }) o)
      ∙ flush_open ds (record c { effects = c.effects ++ fs }) o
      ∙ ap (λ es. record c { message_queue = []; effects = es })
          (append_assoc c.effects fs (frames_of c ds))

  each-send_open :
      (ds : List Bytes) (c : TunnelCore)
      → c.ws ≡ some ws_open
      → c.is_connected ≡ true
      → c.tunnel_ready ≡ true
      → each (send w) ds c ≡ record c { effects = c.effects ++ frames_of c ds }
  unfolding data_message
  each-send_open [] c o p q = ap (λ es. record c { effects = es }) (sym (append-nil c.effects))
  each-send_open (d ∷ ds) c o p q =
      let fs = map (λ k. sent (frame (data_frame w c k))) (chunks (length d) d) in
      ap (each (send w) ds) (send_ready w d c o p q ∙ send_data_frame_open w d c o)
      ∙ each-send_open ds (record c { effects = c.effects ++ fs }) o p q
      ∙ ap (λ es. record c { effects = es }) (append_assoc c.effects fs (frames_of c ds))

  pub send_waiting :
      (d : Bytes) (c : TunnelCore)
      → c.tunnel_ready ≡ false
      → send w d c ≡ record c { message_queue = c.message_queue ++ (d ∷ []) }
  unfolding send
  send_waiting d c q = ground arith

  each-send_waiting :
      (ds : List Bytes) (c : TunnelCore)
      → c.tunnel_ready ≡ false
      → each (send w) ds c ≡ record c { message_queue = c.message_queue ++ ds }
  each-send_waiting [] c q =
      ap (λ ms. record c { message_queue = ms }) (sym (append-nil c.message_queue))
  each-send_waiting (d ∷ ds) c q =
      ap (each (send w) ds) (send_waiting d c q)
      ∙ each-send_waiting ds (record c { message_queue = c.message_queue ++ (d ∷ []) }) q
      ∙ ap (λ ms. record c { message_queue = ms }) (append_assoc c.message_queue (d ∷ []) ds)

  pub handle_handshake :
      (m : Received) (c : TunnelCore)
      → EndsHandshake m c
      → handle_message w m c
        ≡ process_queued_messages w
            (record c { stream_id = agreed_stream m c; tunnel_ready = true })
  unfolding handle_message
  handle_handshake m c (inl (a, b)) = ground arith
  handle_handshake m c (inr (a, b)) = ground arith

  pub process_open :
      (c : TunnelCore)
      → c.ws ≡ some ws_open
      → process_queued_messages w c
        ≡ record c { message_queue = []; effects = c.effects ++ frames_of c c.message_queue }
  process_open c o = unfold process_queued_messages in flush_open c.message_queue c o

  after_handshake :
      (m : Received) (ds : List Bytes) (c : TunnelCore)
      → EndsHandshake m c
      → c.ws ≡ some ws_open
      → c.tunnel_ready ≡ false
      → let ready = record c { stream_id = agreed_stream m c; tunnel_ready = true } in
        handle_message w m (each (send w) ds c) ≡ record ready {
          message_queue = [];
          effects = c.effects ++ frames_of ready (c.message_queue ++ ds);
        }
  unfolding data_message
  after_handshake m ds c e o q =
      let ready = record c { stream_id = agreed_stream m c; tunnel_ready = true } in
      let waiting = c.message_queue ++ ds in
      ap (handle_message w m) (each-send_waiting ds c q)
      ∙ handle_handshake m (record c { message_queue = waiting }) e
      ∙ process_open (record ready { message_queue = waiting }) o

  -- On an open socket that is connected and not ready: the message that ends the handshake
  -- (SERVICE_IDS for a source, STREAM_START for a destination) makes the tunnel ready, takes over the
  -- agreed stream id, empties the queue, and sends what was queued and behind it the data of the
  -- calls of `send` before the message, in the order of the calls, in DATA frames with the agreed
  -- stream id. It changes nothing else, and it all is the same if the calls come after the message.
  pub handle_message-send :
      (m : Received) (ds : List Bytes) (c : TunnelCore)
      → EndsHandshake m c
      → c.ws ≡ some ws_open
      → c.is_connected ≡ true
      → c.tunnel_ready ≡ false
      → let ready = record c { stream_id = agreed_stream m c; tunnel_ready = true } in
        (handle_message w m (each (send w) ds c) ≡ record ready {
          message_queue = [];
          effects = c.effects ++ frames_of ready (c.message_queue ++ ds);
        })
        × (handle_message w m (each (send w) ds c) ≡ each (send w) ds (handle_message w m c))
  unfolding data_message
  handle_message-send m ds c e o p q =
      let ready = record c { stream_id = agreed_stream m c; tunnel_ready = true } in
      let before = c.message_queue in
      let first = after_handshake m ds c e o q in
      (
        first,
        first
            ∙ ap (λ es. record ready { message_queue = []; effects = c.effects ++ es })
                (frames_of-append ready before ds)
            ∙ ap (λ es. record ready { message_queue = []; effects = es })
                (sym (append_assoc c.effects (frames_of ready before) (frames_of ready ds)))
            ∙ sym (
                ap (each (send w) ds) (handle_handshake m c e ∙ process_open ready o)
                ∙ each-send_open ds
                    (record ready {
                      message_queue = [];
                      effects = c.effects ++ frames_of ready before;
                    })
                    o p refl),
      )
