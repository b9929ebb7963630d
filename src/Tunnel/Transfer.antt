-- ===== src/Tunnel/Transfer.antt =====
-- Both ends of a tunnel in lib/aws-iot-tunnel.ts: what one end sends is what the owner of the other
-- end is given.
use sshclient_sftp_wasm.Base.{
  ◌≤◌, ◌≡◌, refl, sym, ap, ◌∙◌, subst, IsInt32, ℤ, pos, Bool, true, false, not, ◌&&◌, Option, none,
  some, List, [], ◌∷◌, ◌++◌, map, concat, each, length, All, if◌then◌else◌, arith, Bytes,
  append_assoc, append-nil, append_cancel_left,
}
use sshclient_sftp_wasm.Wire.{Wire, ReadsBack, Consumes, Sizes, IsUint32, IsAscii}
use sshclient_sftp_wasm.Messages.Fields.{ok, Own}
use sshclient_sftp_wasm.Messages.Class.{Received, received, decode_message}
use sshclient_sftp_wasm.Messages.AnyClass.{
  IsEncodable, own_length, decode_message-encode_message, encode_message-size,
}
use sshclient_sftp_wasm.Tunnel.State.{
  ws_open, sent, data_out, TunnelCore, emit, is_truthy, type_data,
}
use sshclient_sftp_wasm.Tunnel.Outgoing.{frame, data_message, is_v1, is_v3, send, send_data_frame}
use sshclient_sftp_wasm.Tunnel.Incoming.{dispatch, handle_message, handle_incoming_data}
use sshclient_sftp_wasm.Tunnel.Stream.{Fits, at_rest, frames_reassembled}
use sshclient_sftp_wasm.Tunnel.Chunks.{
  chunks, IsChunk, concat-chunks, chunks-IsChunk, sent_bytes, sent_bytes-append, data_frame,
  send_data_frame_open, send_ready,
}

-- Numbers in range, and a service id that leaves a frame below 64 KiB.
pub record IsSendable (c : TunnelCore) : Type 0 where
  pub stream_id : IsInt32 c.stream_id
  pub connection_id : IsUint32 c.connection_id
  pub service_id : Own IsAscii c.config.service_id
  pub short : own_length c.config.service_id ≤ 900

Own-if :
    {A : Type 0} (P : A → Type 0) (b : Bool) (o : Option A)
    → Own P o
    → Own P (if b then o else none)
Own-if P true o h = h
Own-if P false o h = tt

length-if : (b : Bool) (o : Option Bytes) → own_length (if b then o else none) ≤ own_length o
length-if true o = omega arith
length-if false o = omega arith

data_message-IsEncodable :
    (c : TunnelCore) (k : Bytes) → IsSendable c → IsChunk k → IsEncodable (data_message c k)
unfolding data_message
data_message-IsEncodable c k v h = record {
  type = omega arith;
  stream_id = v.stream_id;
  payload = omega arith;
  service_id =
      Own-if IsAscii (is_truthy c.config.service_id && not (is_v1 c.protocol)) c.config.service_id
        v.service_id;
  available_service_ids = tt;
  connection_id = Own-if IsUint32 (is_v3 c.protocol) (some c.connection_id) v.connection_id;
}

module _ (w : Wire) where
  data_frame-Fits :
      (c : TunnelCore) (k : Bytes) → Sizes w → IsSendable c → IsChunk k → Fits (data_frame w c k)
  unfolding data_message
  data_frame-Fits c k sizes v h = omega (
    arith,
    encode_message-size w sizes c.protocol (data_message c k) (data_message-IsEncodable c k v h)
        refl refl,
    length-if (is_truthy c.config.service_id && not (is_v1 c.protocol)) c.config.service_id,
    v.short,
  )

  dispatch_ok :
      (s : Bytes) (c : TunnelCore) {m : Received}
      → decode_message w c.protocol s ≡ ok m
      → dispatch w s c ≡ handle_message w m c
  unfolding dispatch
  dispatch_ok s c e = rw (e, dispatch)

  handle_data :
      (stream_id : Option ℤ) (k : Bytes) (c : TunnelCore)
      → c.callbacks.on_data ≡ true
      → handle_message w (received (some (pos type_data)) stream_id (some k)) c
        ≡ emit (data_out k) c
  unfolding handle_message
  handle_data stream_id k c e = ground arith

  module _ (back : ReadsBack w) (takes : Consumes w) (c : TunnelCore) (v : IsSendable c) where
    pub data_decoded :
        (k : Bytes)
        → IsChunk k
        → decode_message w c.protocol (data_frame w c k)
          ≡ ok (received (some (pos type_data)) (some c.stream_id) (some k))
    unfolding data_message
    data_decoded k h =
        decode_message-encode_message w back takes c.protocol (data_message c k)
          (data_message-IsEncodable c k v h)

    dispatch_one :
        (k : Bytes) (r : TunnelCore)
        → r.protocol ≡ c.protocol
        → r.callbacks.on_data ≡ true
        → IsChunk k
        → dispatch w (data_frame w c k) r ≡ emit (data_out k) r
    dispatch_one k r same set h =
        dispatch_ok (data_frame w c k) r (
          subst
            (λ q.
              decode_message w q (data_frame w c k)
              ≡ ok (received (some (pos type_data)) (some c.stream_id) (some k)))
            (sym same) (data_decoded k h))
        ∙ handle_data (some c.stream_id) k r set

    dispatch_data :
        (ks : List Bytes) (r : TunnelCore)
        → r.protocol ≡ c.protocol
        → r.callbacks.on_data ≡ true
        → All IsChunk ks
        → each (dispatch w) (map (data_frame w c) ks) r
          ≡ record r { effects = r.effects ++ map data_out ks }
    dispatch_data [] r same set h =
        ap (λ es. record r { effects = es }) (sym (append-nil r.effects))
    dispatch_data (k ∷ ks) r same set h =
        ap (each (dispatch w) (map (data_frame w c) ks)) (dispatch_one k r same set h.0)
        ∙ dispatch_data ks (emit (data_out k) r) same set h.1
        ∙ ap (λ es. record r { effects = es })
            (append_assoc r.effects (data_out k ∷ []) (map data_out ks))

  frames_sent :
      (c : TunnelCore) (ks : List Bytes)
      → sent_bytes (map (λ k. sent (frame (data_frame w c k))) ks)
        ≡ concat (map frame (map (data_frame w c) ks))
  frames_sent c [] = refl
  frames_sent c (k ∷ ks) = ap (◌++◌ (frame (data_frame w c k))) (frames_sent c ks)

  All-Fits :
      (sizes : Sizes w) (c : TunnelCore) (v : IsSendable c) (ks : List Bytes)
      → All IsChunk ks
      → All Fits (map (data_frame w c) ks)
  All-Fits sizes c v [] h = tt
  All-Fits sizes c v (k ∷ ks) h = (data_frame-Fits c k sizes v h.0, All-Fits sizes c v ks h.1)

  -- On an open socket `sendDataFrame` cuts its data into payloads and sends a DATA frame for each, in
  -- order, and every one of these frames has a length that its two-byte prefix can announce: if the
  -- wire keeps its sizes, the ids are 32-bit and the service id is ASCII of at most 900 characters.
  pub send_data_frame-Fits :
      (sizes : Sizes w) (c : TunnelCore) (bytes : Bytes)
      → c.ws ≡ some ws_open
      → IsSendable c
      → (ks : List Bytes) × (concat ks ≡ bytes)
        × All Fits (map (data_frame w c) ks)
        × ((send_data_frame w bytes c).effects
            ≡ c.effects ++ map (λ k. sent (frame (data_frame w c k))) ks)
  send_data_frame-Fits sizes c bytes o v =
      let ks = chunks (length bytes) bytes in
      (
        ks,
        concat-chunks (length bytes) bytes (omega arith),
        All-Fits sizes c v ks (chunks-IsChunk (length bytes) bytes),
        ap (λ d. d.effects) (send_data_frame_open w bytes c o),
      )

  -- What a call of `send` on a ready tunnel adds to the bytes sent.
  pub sent_bytes-send :
      (c : TunnelCore) (bytes : Bytes)
      → c.ws ≡ some ws_open
      → c.is_connected ≡ true
      → c.tunnel_ready ≡ true
      → sent_bytes (send w bytes c).effects
        ≡ sent_bytes c.effects
          ++ concat (map frame (map (data_frame w c) (chunks (length bytes) bytes)))
  sent_bytes-send c bytes o p q =
      rw (send_ready w bytes c o p q, send_data_frame_open w bytes c o)
        (sent_bytes-append c.effects _
          ∙ ap (◌++◌ (sent_bytes c.effects)) (frames_sent c (chunks (length bytes) bytes)))

  -- A call of `send` on a ready tunnel: however the other end's socket cuts the bytes that the call
  -- adds to those sent, the other end's owner is given exactly the call's bytes, in order, by calls
  -- of onData and nothing else; its buffer is empty again and the rest of its state is as it was.
  -- The ends use one protocol version, the other owner has set onData, the wire keeps its laws, the
  -- ids are 32-bit, and the service id is ASCII of at most 900 characters.
  pub sent_arrives :
      (back : ReadsBack w) (takes : Consumes w) (sizes : Sizes w) (c r : TunnelCore) (bytes : Bytes)
      (deliveries : List Bytes)
      → c.ws ≡ some ws_open
      → c.is_connected ≡ true
      → c.tunnel_ready ≡ true
      → IsSendable c
      → r.protocol ≡ c.protocol
      → r.callbacks.on_data ≡ true
      → sent_bytes (send w bytes c).effects ≡ sent_bytes c.effects ++ concat deliveries
      → (given : List Bytes) × (concat given ≡ bytes)
        × (each (handle_incoming_data w) deliveries (at_rest r)
            ≡ at_rest (record r { effects = r.effects ++ map data_out given }))
  sent_arrives back takes sizes c r bytes deliveries o p q v same set cut =
      let ks = chunks (length bytes) bytes in
      let ok_ks = chunks-IsChunk (length bytes) bytes in
      (
        ks,
        concat-chunks (length bytes) bytes (omega arith),
        frames_reassembled w (map (data_frame w c) ks) deliveries r (All-Fits sizes c v ks ok_ks) (
              append_cancel_left (sent_bytes c.effects) _ _
                (sym cut ∙ sent_bytes-send c bytes o p q))
            ∙ ap at_rest (dispatch_data back takes c v ks r same set ok_ks),
      )
