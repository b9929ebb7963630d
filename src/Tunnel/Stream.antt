-- ===== src/Tunnel/Stream.antt =====
-- The framing of lib/aws-iot-tunnel.ts: what reaches `dispatch` does not depend on how the socket
-- cuts the byte stream.
use sshclient_sftp_wasm.Base.{
  ℕ, zero, suc, ◌+◌, ◌*◌, ◌/◌, ◌%◌, ◌≤◌, ◌<◌, ◌≡◌, refl, sym, ◌∙◌, List, [], ◌∷◌, ◌++◌, map, concat,
  each, length, take, drop, All, ltb, arith, Bytes, inl, inr, Bool-cases, append_assoc, append-nil,
  length-append, length-drop, take-append_le, drop-append_le, take-append_eq, drop-append_eq,
  ltb→le, ltb→lt, le→ltb,
}
use sshclient_sftp_wasm.Wire.{Wire}
use sshclient_sftp_wasm.Tunnel.State.{TunnelCore, SecureTunnelTransport}
use sshclient_sftp_wasm.Tunnel.Outgoing.{frame}
use sshclient_sftp_wasm.Tunnel.Incoming.{dispatch, receive_loop, handle_incoming_data}

abbrev pub Fits : Bytes → Type 0
Fits m = length m < 65536

-- A transport with nothing in its receive buffer.
abbrev pub at_rest : TunnelCore → SecureTunnelTransport
at_rest c = record { core = c; receive_buffer = [] }

module _ (w : Wire) where
  -- A frame that is there in full is taken off.
  receive_loop_frame :
      (hi lo : ℕ) (s : Bytes) (fuel : ℕ) (c : TunnelCore)
      → hi * 256 + lo ≤ length s
      → receive_loop w (hi ∷ lo ∷ s) (suc fuel) c
        ≡ receive_loop w (drop (hi * 256 + lo) s) fuel (dispatch w (take (hi * 256 + lo) s) c)
  unfolding receive_loop
  receive_loop_frame hi lo s fuel c h = rw (le→ltb (length s) (hi * 256 + lo) h)

  -- A frame that is not waits in the buffer.
  pub receive_loop_wait :
      (hi lo : ℕ) (s : Bytes) (fuel : ℕ) (c : TunnelCore)
      → length s < hi * 256 + lo
      → receive_loop w (hi ∷ lo ∷ s) fuel c ≡ record { core = c; receive_buffer = hi ∷ lo ∷ s }
  unfolding receive_loop
  receive_loop_wait hi lo s zero c h = refl
  receive_loop_wait hi lo s (suc fuel) c h = ground arith

  -- Fuel beyond the length makes no difference.
  receive_loop_fuel :
      (f g : ℕ) (s : Bytes) (c : TunnelCore)
      → length s ≤ f
      → length s ≤ g
      → receive_loop w s f c ≡ receive_loop w s g c
  receive_loop_fuel f g [] c hf hg = unfold receive_loop in refl
  receive_loop_fuel f g (b ∷ []) c hf hg = unfold receive_loop in refl
  receive_loop_fuel zero g (hi ∷ lo ∷ s) c hf hg = absurd (omega arith)
  receive_loop_fuel (suc f) zero (hi ∷ lo ∷ s) c hf hg = absurd (omega arith)
  receive_loop_fuel (suc f) (suc g) (hi ∷ lo ∷ s) c hf hg =
      let n = hi * 256 + lo in
      elim (Bool-cases (ltb (length s) n)) [
        | inl less ↦
            receive_loop_wait hi lo s (suc f) c (ltb→lt _ _ less)
            ∙ sym (receive_loop_wait hi lo s (suc g) c (ltb→lt _ _ less))
        | inr there ↦
            receive_loop_frame hi lo s f c (ltb→le _ _ there)
            ∙ receive_loop_fuel f g (drop n s) (dispatch w (take n s) c)
                (omega (arith, length-drop n s)) (omega (arith, length-drop n s))
            ∙ sym (receive_loop_frame hi lo s g c (ltb→le _ _ there))
      ]

  -- Bytes that come later join what the loop left.
  receive_loop-append :
      (f h g : ℕ) (s more : Bytes) (c : TunnelCore)
      → length (s ++ more) ≤ f
      → length s ≤ h
      → length (s ++ more) ≤ g
      → receive_loop w (s ++ more) f c
        ≡ receive_loop w
            ((receive_loop w s h c).receive_buffer ++ more)
            g
            (receive_loop w s h c).core
  receive_loop-append f h g [] more c hf hh hg =
      receive_loop_fuel f g more c hf hg ∙ unfold receive_loop in refl
  receive_loop-append f h g (b ∷ []) more c hf hh hg =
      receive_loop_fuel f g (b ∷ more) c hf hg ∙ unfold receive_loop in refl
  receive_loop-append zero h g (hi ∷ lo ∷ s) more c hf hh hg = absurd (omega arith)
  receive_loop-append (suc f) zero g (hi ∷ lo ∷ s) more c hf hh hg = absurd (omega arith)
  receive_loop-append (suc f) (suc h) g (hi ∷ lo ∷ s) more c hf hh hg =
      let n = hi * 256 + lo in
      elim (Bool-cases (ltb (length s) n)) [
        | inl less ↦
            rw (receive_loop_wait hi lo s (suc h) c (ltb→lt _ _ less))
              (receive_loop_fuel (suc f) g (hi ∷ lo ∷ s ++ more) c hf hg)
        | inr there ↦
            receive_loop_frame hi lo (s ++ more) f c
              (omega (arith, ltb→le _ _ there, length-append s more))
            ∙ rw
                (
                  take-append_le n s more (ltb→le _ _ there),
                  drop-append_le n s more (ltb→le _ _ there),
                  receive_loop_frame hi lo s h c (ltb→le _ _ there),
                )
                (receive_loop-append f h g (drop n s) more (dispatch w (take n s) c)
                  (omega
                    (arith, length-append (drop n s) more, length-append s more, length-drop n s))
                  (omega (arith, length-drop n s))
                  (omega
                    (arith, length-append (drop n s) more, length-append s more, length-drop n s)))
      ]

  -- Two deliveries have the effect of one delivery of their bytes together: the state, the
  -- callbacks' calls and the bytes left over are the same, on well-formed and on malformed bytes.
  pub handle_incoming_data-append :
      (a b : Bytes) (t : SecureTunnelTransport)
      → handle_incoming_data w b (handle_incoming_data w a t) ≡ handle_incoming_data w (a ++ b) t
  unfolding handle_incoming_data
  handle_incoming_data-append a b t =
      let s = t.receive_buffer ++ a in
      let t' = receive_loop w s (length s) t.core in
      let left = t'.receive_buffer ++ b in
      let fuel = length (s ++ b) + length left in
      rw (← append_assoc t.receive_buffer a b) (
        receive_loop_fuel (length left) fuel left t'.core (omega arith) (omega arith)
        ∙ sym (
            receive_loop-append (length (s ++ b)) (length s) fuel s b t.core (omega arith)
              (omega arith) (omega arith)))

  each_delivery-concat :
      (ds : List Bytes) (d : Bytes) (t : SecureTunnelTransport)
      → each (handle_incoming_data w) ds (handle_incoming_data w d t)
        ≡ handle_incoming_data w (d ++ concat ds) t
  each_delivery-concat [] d t = rw (append-nil d)
  each_delivery-concat (e ∷ ds) d t =
      rw (handle_incoming_data-append d e t, ← append_assoc d e (concat ds))
        (each_delivery-concat ds (d ++ e) t)

  frames_received :
      (ms : List Bytes) (fuel : ℕ) (c : TunnelCore)
      → All Fits ms
      → length (concat (map frame ms)) ≤ fuel
      → receive_loop w (concat (map frame ms)) fuel c ≡ at_rest (each (dispatch w) ms c)
  unfolding frame
  frames_received [] fuel c fit h = unfold receive_loop in refl
  frames_received (m ∷ ms) zero c fit h = absurd (omega arith)
  frames_received (m ∷ ms) (suc fuel) c fit h =
      let n = length m in
      let rest = concat (map frame ms) in
      let announced : n / 256 % 256 * 256 + n % 256 ≡ n = omega (arith, fit.0) in
      receive_loop_frame (n / 256 % 256) (n % 256) (m ++ rest) fuel c
        (omega (arith, length-append m rest, announced))
      ∙ rw (take-append_eq _ m rest announced, drop-append_eq _ m rest announced)
          (frames_received ms fuel (dispatch w m c) fit.1 (omega (arith, h, length-append m rest)))

  -- However the socket cuts the frames of some messages into deliveries, from an empty buffer every
  -- message shorter than 64 KiB is dispatched once, in order, and no byte is left over.
  pub frames_reassembled :
      (ms deliveries : List Bytes) (c : TunnelCore)
      → All Fits ms
      → concat deliveries ≡ concat (map frame ms)
      → each (handle_incoming_data w) deliveries (at_rest c) ≡ at_rest (each (dispatch w) ms c)
  unfolding handle_incoming_data
  frames_reassembled ms deliveries c fit cut =
      each_delivery-concat deliveries [] (at_rest c)
      ∙ rw cut (frames_received ms _ c fit (omega arith))
