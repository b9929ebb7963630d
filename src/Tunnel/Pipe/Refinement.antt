-- ===== src/Tunnel/Pipe/Refinement.antt =====
-- SecureTunnelTransport of lib/aws-iot-tunnel.ts implements the pipe.
use sshclient_sftp_wasm.Base.{
  ◌≡◌, refl, ap, ◌∙◌, inl, inr, IsInt32, ℤ, is_nat, Bool, true, false, Bool-cases, List, [], ◌∷◌,
  ◌++◌, map, concat, each, length, All, arith, Bytes, append-nil, subst,
}
use sshclient_sftp_wasm.Wire.{Wire, ReadsBack, Consumes}
use sshclient_sftp_wasm.Messages.Class.{Protocol, Received}
use sshclient_sftp_wasm.Tunnel.State.{ClientMode, Effect, sent, TunnelCore, type_session_reset}
use sshclient_sftp_wasm.Tunnel.Outgoing.{frame, send}
use sshclient_sftp_wasm.Tunnel.Incoming.{handle_message}
use sshclient_sftp_wasm.Tunnel.Chunks.{chunks, data_frame, send_data_frame_open, send_ready}
use sshclient_sftp_wasm.Tunnel.Queue.{
  EndsHandshake, agreed_stream, frames_of, send_waiting, handle_handshake, process_open,
}
use sshclient_sftp_wasm.Tunnel.Transfer.{IsSendable}
use sshclient_sftp_wasm.Tunnel.Pipe.Quiet.{
  handle_message-cases, ends_handshake-EndsHandshake, agreed_stream-IsInt32,
}
use sshclient_sftp_wasm.Tunnel.Pipe.Carried.{concat-append, carried-data, carried-frames_of}
use sshclient_sftp_wasm.Tunnel.Pipe.{
  Pipe, write, open_pipe, Operation, sends, receives, ends_handshake, specified, Continues, perform,
  carried, carried-append, ReadsAs,
}

pub write_open :
    (d : Bytes) (p : Pipe) → p.has_opened ≡ true → write d p ≡ record p { passed = p.passed ++ d }
write_open d p e = ground arith

pub write_shut :
    (d : Bytes) (p : Pipe)
    → p.has_opened ≡ false
    → write d p ≡ record p { waiting = p.waiting ++ d }
write_shut d p e = ground arith

still-IsSendable :
    (z : ℤ) (r : Bool) (ms : List Bytes) (es : List Effect) (c : TunnelCore)
    → IsSendable c
    → IsInt32 z
    → IsSendable (record c { stream_id = z; tunnel_ready = r; message_queue = ms; effects = es })
still-IsSendable z r ms es c v h = record {
  stream_id = h;
  connection_id = v.connection_id;
  service_id = v.service_id;
  short = v.short;
}

module _ (w : Wire) (back : ReadsBack w) (takes : Consumes w) where
  module _ (mode : ClientMode) (q : Protocol) where
    -- What an operation changes of the transport, and what is to be shown of it.
    changed :
        (z : ℤ) (r : Bool) (ms : List Bytes) (es : List Effect) (p p' : Pipe) (c : TunnelCore)
        → ReadsAs w mode q p c
        → IsInt32 z
        → r ≡ p'.has_opened
        → concat ms ≡ p'.waiting
        → carried w q es ≡ p'.passed
        → ReadsAs w mode q p'
            (record c { stream_id = z; tunnel_ready = r; message_queue = ms; effects = es })
    changed z r ms es p p' c v hz hr hm he = record {
      in_mode = v.in_mode;
      in_protocol = v.in_protocol;
      socket_open = v.socket_open;
      connected = v.connected;
      ready = hr;
      queued = hm;
      passed_on = he;
      sendable = still-IsSendable z r ms es c v.sendable hz;
    }

    send-ReadsAs :
        (d : Bytes) (p : Pipe) (c : TunnelCore)
        → ReadsAs w mode q p c
        → ReadsAs w mode q (write d p) (send w d c)
    send-ReadsAs d p c v = elim (Bool-cases p.has_opened) [
      | inr e ↦
          rw (write_shut d p e, send_waiting w d c (v.ready ∙ e))
            (changed c.stream_id c.tunnel_ready (c.message_queue ++ (d ∷ [])) c.effects p
              (record p { waiting = p.waiting ++ d }) c v v.sendable.stream_id v.ready
              (concat-append c.message_queue (d ∷ [])
                ∙ ap (λ x. x ++ (d ++ [])) v.queued
                ∙ ap (◌++◌ p.waiting) (append-nil d))
              v.passed_on)
      | inl e ↦
          let fs = map (λ k. sent (frame (data_frame w c k))) (chunks (length d) d) in
          rw
            (
              write_open d p e,
              send_ready w d c v.socket_open v.connected (v.ready ∙ e),
              send_data_frame_open w d c v.socket_open,
            )
            (changed c.stream_id c.tunnel_ready c.message_queue (c.effects ++ fs) p
              (record p { passed = p.passed ++ d }) c v v.sendable.stream_id v.ready v.queued
              (carried-append w q c.effects fs
                ∙ ap (λ x. x ++ carried w q fs) v.passed_on
                ∙ ap (◌++◌ p.passed) (
                    subst (λ k. carried w k fs ≡ d) v.in_protocol
                      (carried-data w back takes c d v.sendable))))
    ]

    open-ReadsAs :
        (m : Received) (p : Pipe) (c : TunnelCore)
        → ReadsAs w mode q p c
        → EndsHandshake m c
        → IsInt32 (agreed_stream m c)
        → ReadsAs w mode q (open_pipe p) (handle_message w m c)
    open-ReadsAs m p c v h hz =
        let ready = record c { stream_id = agreed_stream m c; tunnel_ready = true } in
        let fs = frames_of w ready c.message_queue in
        rw (handle_handshake w m c h, process_open w ready v.socket_open)
          (changed (agreed_stream m c) true [] (c.effects ++ fs) p (open_pipe p) c v hz refl refl (
            carried-append w q c.effects fs
            ∙ ap (λ x. x ++ carried w q fs) v.passed_on
            ∙ ap (◌++◌ p.passed) (
                subst (λ k. carried w k fs ≡ concat c.message_queue) v.in_protocol
                  (carried-frames_of w back takes ready c.message_queue (
                    still-IsSendable (agreed_stream m c) true c.message_queue c.effects c v.sendable
                      hz))
                ∙ v.queued)))

    receive-ReadsAs :
        (m : Received) (p : Pipe) (c : TunnelCore)
        → is_nat type_session_reset m.type ≡ false
        → IsInt32 m.stream_id
        → ReadsAs w mode q p c
        → ReadsAs w mode q (specified mode (receives m) p) (handle_message w m c)
    receive-ReadsAs m p c kept h v = elim (Bool-cases (ends_handshake mode m)) [
      | inl e ↦ rw e (
          open-ReadsAs m p c v (ends_handshake-EndsHandshake mode m c v.in_mode e)
            (agreed_stream-IsInt32 m c h v.sendable.stream_id))
      | inr e ↦ rw e (
          handle_message-cases w (ReadsAs w mode q p) q m c (rw v.in_mode e) kept v (λ x none.
            changed c.stream_id c.tunnel_ready c.message_queue (c.effects ++ (x ∷ [])) p p c v
              v.sendable.stream_id v.ready v.queued
              (carried-append w q c.effects (x ∷ [])
                ∙ ap (λ y. carried w q c.effects ++ (y ++ [])) none
                ∙ append-nil (carried w q c.effects)
                ∙ v.passed_on)))
    ]

    perform-ReadsAs :
        (o : Operation) (p : Pipe) (c : TunnelCore)
        → Continues o
        → ReadsAs w mode q p c
        → ReadsAs w mode q (specified mode o p) (perform w o c)
    unfolding perform
    perform-ReadsAs (sends d) p c h v = send-ReadsAs d p c v
    perform-ReadsAs (receives m) p c h v = receive-ReadsAs m p c h.0 h.1 v

    -- A connected transport on an open socket implements a pipe that opens when the handshake ends.
    -- Whatever sequence of calls of `send` and of messages from the peer, with no SESSION_RESET
    -- among them and stream ids of 32 bits, takes a transport that reads as some pipe to one that
    -- reads as what the pipe's specification makes of the same sequence: the data that the peer
    -- finds in the frames sent is what has passed, the queue holds what waits, and the tunnel is
    -- ready exactly if the pipe is open.
    pub run_refines :
        (os : List Operation) (p : Pipe) (c : TunnelCore)
        → All Continues os
        → ReadsAs w mode q p c
        → ReadsAs w mode q (each (specified mode) os p) (each (perform w) os c)
    run_refines [] p c h v = v
    run_refines (o ∷ os) p c h v =
        run_refines os (specified mode o p) (perform w o c) h.1 (perform-ReadsAs o p c h.0 v)
