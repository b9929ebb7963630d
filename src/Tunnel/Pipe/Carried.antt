-- ===== src/Tunnel/Pipe/Carried.antt =====
-- What the peer finds in the DATA frames that SecureTunnelTransport of lib/aws-iot-tunnel.ts sends.
use sshclient_sftp_wasm.Base.{
  ◌≡◌, refl, sym, ap, ◌∙◌, List, [], ◌∷◌, ◌++◌, map, concat, length, All, arith, Bytes,
  append_assoc,
}
use sshclient_sftp_wasm.Wire.{Wire, ReadsBack, Consumes}
use sshclient_sftp_wasm.Tunnel.State.{sent, TunnelCore}
use sshclient_sftp_wasm.Tunnel.Outgoing.{frame}
use sshclient_sftp_wasm.Tunnel.Chunks.{chunks, IsChunk, concat-chunks, chunks-IsChunk, data_frame}
use sshclient_sftp_wasm.Tunnel.Queue.{frames_of}
use sshclient_sftp_wasm.Tunnel.Transfer.{IsSendable, data_decoded}
use sshclient_sftp_wasm.Tunnel.Pipe.{carried, carried-append}

pub concat-append : (xs ys : List Bytes) → concat (xs ++ ys) ≡ concat xs ++ concat ys
concat-append [] ys = refl
concat-append (x ∷ xs) ys =
    ap (◌++◌ x) (concat-append xs ys) ∙ sym (append_assoc x (concat xs) (concat ys))

module _ (w : Wire) (back : ReadsBack w) (takes : Consumes w) where
  carried-data_frames :
      (c : TunnelCore) (ks : List Bytes)
      → IsSendable c
      → All IsChunk ks
      → carried w c.protocol (map (λ k. sent (frame (data_frame w c k))) ks) ≡ concat ks
  unfolding frame
  carried-data_frames c [] v h = refl
  carried-data_frames c (k ∷ ks) v h =
      rw (data_decoded w back takes c v k h.0) (ap (◌++◌ k) (carried-data_frames c ks v h.1))

  pub carried-data :
      (c : TunnelCore) (d : Bytes)
      → IsSendable c
      → carried w c.protocol (map (λ k. sent (frame (data_frame w c k))) (chunks (length d) d)) ≡ d
  carried-data c d v =
      carried-data_frames c (chunks (length d) d) v (chunks-IsChunk (length d) d)
      ∙ concat-chunks (length d) d (omega arith)

  pub carried-frames_of :
      (c : TunnelCore) (ds : List Bytes)
      → IsSendable c
      → carried w c.protocol (frames_of w c ds) ≡ concat ds
  carried-frames_of c [] v = refl
  carried-frames_of c (d ∷ ds) v =
      carried-append w c.protocol (map (λ k. sent (frame (data_frame w c k))) (chunks (length d) d))
        (frames_of w c ds)
      ∙ ap (λ x. x ++ carried w c.protocol (frames_of w c ds)) (carried-data c d v)
      ∙ ap (◌++◌ d) (carried-frames_of c ds v)
