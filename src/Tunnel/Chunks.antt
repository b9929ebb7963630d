-- ===== src/Tunnel/Chunks.antt =====
-- `sendDataFrame` of lib/aws-iot-tunnel.ts on an open socket: the chunks that it cuts its data into
-- and the frames that it sends.
use sshclient_sftp_wasm.Base.{
  ℕ, Option, none, zero, suc, ◌≤◌, ◌<◌, ◌≡◌, refl, sym, ap, ◌∙◌, some, List, [], ◌∷◌, ◌++◌, map,
  concat, length, take, drop, All, arith, Bytes, append-nil, append_assoc, length-take, length-drop,
  take-append-drop, true,
}
use sshclient_sftp_wasm.Wire.{Wire}
use sshclient_sftp_wasm.Messages.Class.{encode_message}
use sshclient_sftp_wasm.Tunnel.State.{
  ReadyState, ws_connecting, ws_open, ws_closing, ws_closed, Effect, sent, TunnelCore, emit,
}
use sshclient_sftp_wasm.Tunnel.Outgoing.{
  frame, max_payload_size, data_message, send_frame, send_chunks, send_data_frame, send,
}

-- The bytes cut into pieces of 63 KiB, the last one what remains.
unfoldable pub chunks : ℕ → Bytes → List Bytes
chunks fuel [] = []
chunks zero (b ∷ s) = []
chunks (suc fuel) (b ∷ s) =
    take max_payload_size (b ∷ s) ∷ chunks fuel (drop max_payload_size (b ∷ s))

-- A payload that one DATA message may carry.
abbrev pub IsChunk : Bytes → Type 0
IsChunk k = (0 < length k) × (length k ≤ max_payload_size)

pub concat-chunks : (fuel : ℕ) (s : Bytes) → length s ≤ fuel → concat (chunks fuel s) ≡ s
unfolding chunks
concat-chunks fuel [] h = refl
concat-chunks zero (b ∷ s) h = absurd (omega arith)
concat-chunks (suc fuel) (b ∷ s) h =
    ap (◌++◌ (take max_payload_size (b ∷ s))) (
      concat-chunks fuel (drop max_payload_size (b ∷ s))
        (omega (arith, length-drop max_payload_size (b ∷ s))))
    ∙ take-append-drop max_payload_size (b ∷ s)

pub chunks-IsChunk : (fuel : ℕ) (s : Bytes) → All IsChunk (chunks fuel s)
unfolding chunks
chunks-IsChunk fuel [] = tt
chunks-IsChunk zero (b ∷ s) = tt
chunks-IsChunk (suc fuel) (b ∷ s) =
    let n = length-take max_payload_size (b ∷ s) in
    ((omega (arith, n), omega (arith, n)), chunks-IsChunk fuel (drop max_payload_size (b ∷ s)))

-- What `ws.send` was given, end to end.
abbrev pub sent_bytes : List Effect → Bytes
sent_bytes [] = []
sent_bytes (sent b ∷ es) = b ++ sent_bytes es
sent_bytes (e ∷ es) = sent_bytes es

pub sent_bytes-append :
    (es fs : List Effect) → sent_bytes (es ++ fs) ≡ sent_bytes es ++ sent_bytes fs
sent_bytes-append [] fs = refl
sent_bytes-append (sent b ∷ es) fs =
    ap (◌++◌ b) (sent_bytes-append es fs) ∙ sym (append_assoc b (sent_bytes es) (sent_bytes fs))
sent_bytes-append (e ∷ es) fs = sent_bytes-append es fs

-- A frame goes out or changes nothing.
pub send_frame-cases :
    (P : TunnelCore → Type 0) (m : Bytes) (c : TunnelCore)
    → P c
    → P (emit (sent (frame m)) c)
    → P (send_frame m c)
unfolding send_frame
send_frame-cases P m c stays goes = go c.ws
  where
    go :
        (o : Option ReadyState)
        → P (elim o [ none ↦ c | some s ↦ elim s [ ws_open ↦ emit (sent (frame m)) c | _ ↦ c ] ])
    go none = stays
    go (some ws_connecting) = stays
    go (some ws_open) = goes
    go (some ws_closing) = stays
    go (some ws_closed) = stays

-- On an open socket the frame goes out.
pub send_frame_open :
    (m : Bytes) (c : TunnelCore) → c.ws ≡ some ws_open → send_frame m c ≡ emit (sent (frame m)) c
unfolding send_frame
send_frame_open m c o = ground arith

module _ (w : Wire) where
  -- The encoded DATA message of a chunk.
  abbrev pub data_frame : TunnelCore → Bytes → Bytes
  data_frame c k = encode_message w c.protocol (data_message c k)

  send_chunks_step :
      (fuel b : ℕ) (s : Bytes) (c : TunnelCore)
      → send_chunks w (suc fuel) (b ∷ s) c
        ≡ send_chunks w fuel
            (drop max_payload_size (b ∷ s))
            (send_frame (data_frame c (take max_payload_size (b ∷ s))) c)
  unfolding send_chunks
  send_chunks_step fuel b s c = refl

  send_chunks_open :
      (fuel : ℕ) (s : Bytes) (c : TunnelCore)
      → c.ws ≡ some ws_open
      → send_chunks w fuel s c ≡ record c {
        effects = c.effects ++ map (λ k. sent (frame (data_frame c k))) (chunks fuel s);
      }
  unfolding chunks data_message
  send_chunks_open fuel [] c o =
      unfold send_chunks in ap (λ es. record c { effects = es }) (sym (append-nil c.effects))
  send_chunks_open zero (b ∷ s) c o =
      unfold send_chunks in ap (λ es. record c { effects = es }) (sym (append-nil c.effects))
  send_chunks_open (suc fuel) (b ∷ s) c o =
      let k = take max_payload_size (b ∷ s) in
      let f = sent (frame (data_frame c k)) in
      let rest = drop max_payload_size (b ∷ s) in
      send_chunks_step fuel b s c
      ∙ rw (send_frame_open (data_frame c k) c o) (
          send_chunks_open fuel rest (emit f c) o
          ∙ ap (λ es. record c { effects = es })
              (append_assoc c.effects (f ∷ [])
                (map (λ x. sent (frame (data_frame c x))) (chunks fuel rest))))

  -- On an open socket `sendDataFrame` sends one frame for each chunk and changes nothing else.
  pub send_data_frame_open :
      (s : Bytes) (c : TunnelCore)
      → c.ws ≡ some ws_open
      → send_data_frame w s c ≡ record c {
        effects = c.effects ++ map (λ k. sent (frame (data_frame c k))) (chunks (length s) s);
      }
  unfolding send_data_frame
  send_data_frame_open s c o = send_chunks_open (length s) s c o

  -- A ready tunnel sends at once.
  pub send_ready :
      (s : Bytes) (c : TunnelCore)
      → c.ws ≡ some ws_open
      → c.is_connected ≡ true
      → c.tunnel_ready ≡ true
      → send w s c ≡ send_data_frame w s c
  unfolding send
  send_ready s c o p q = ground arith
