-- ===== src/Tunnel/Pipe/Opening.antt =====
-- A new SecureTunnelTransport of lib/aws-iot-tunnel.ts whose socket opens, as a pipe.
use mathlib.Core.Option
use sshclient_sftp_wasm.Base.{
  ◌≤◌, ◌≡◌, refl, ap, ◌∙◌, true, false, Bool-cases, inl, inr, Option, none, some, List, [], ◌∷◌,
  ◌++◌, concat, each, All, arith, Bytes, Text,
}
use sshclient_sftp_wasm.Wire.{Wire, ReadsBack, Consumes, IsAscii}
use sshclient_sftp_wasm.Messages.Class.{Protocol, encode_message}
use sshclient_sftp_wasm.Tunnel.State.{
  ClientMode, source, destination, TunnelCore, SecureTunnelConfig, Callbacks, new_transport, sent,
  ReadyState, ws_connecting, Effect, ws_open, emit, is_truthy, resolved, socket,
}
use sshclient_sftp_wasm.Tunnel.Url.{build_websocket_url, subprotocol}
use sshclient_sftp_wasm.Tunnel.Outgoing.{frame, send_control_message}
use sshclient_sftp_wasm.Tunnel.Lifecycle.{
  connects, opens, step, connect, open_socket, on_open, greet,
}
use sshclient_sftp_wasm.Tunnel.Chunks.{send_frame_open}
use sshclient_sftp_wasm.Tunnel.Transfer.{IsSendable}
use sshclient_sftp_wasm.Messages.Props.{Props}
use sshclient_sftp_wasm.Messages.Fields.{Own}
use sshclient_sftp_wasm.Messages.AnyClass.{IsEncodable, own_length, decode_message-encode_message}
use sshclient_sftp_wasm.Tunnel.Pipe.{shut_pipe, carried, carried_by, carried-append, ReadsAs}

-- A new transport whose socket has been opened.
abbrev pub opened : Wire → SecureTunnelConfig → Callbacks → TunnelCore
opened w config callbacks =
    (each (step w) (connects true ∷ opens ∷ []) (new_transport config callbacks)).core

one_id : (o : Option Text) → Own IsAscii o → Own (All IsAscii) (Option.map (λ s. s ∷ []) o)
one_id none h = tt
one_id (some s) h = (h, tt)

connect_open :
    (c : TunnelCore) {url : Text}
    → build_websocket_url c.config ≡ some url
    → connect true c
      ≡ record (emit (socket url (subprotocol c.protocol)) c) { ws = some ws_connecting }
unfolding connect open_socket
connect_open c h = rw h refl

module _ (w : Wire) (back : ReadsBack w) (takes : Consumes w) where
  control_frame :
      (q : Protocol) (p : Props)
      → IsEncodable p
      → p.payload ≡ none
      → carried_by w q (sent (frame (encode_message w q p))) ≡ []
  unfolding frame
  control_frame q p v e = rw (decode_message-encode_message w back takes q p v) (ground arith)

  control-cases :
      (P : TunnelCore → Type 0) (p : Props) (c : TunnelCore)
      → c.ws ≡ some ws_open
      → IsEncodable p
      → p.payload ≡ none
      → ((f : Bytes) → carried_by w c.protocol (sent f) ≡ [] → P (emit (sent f) c))
      → P (send_control_message w p c)
  unfolding send_control_message
  control-cases P p c o v e goes =
      rw (send_frame_open (encode_message w c.protocol p) c o)
        (goes (frame (encode_message w c.protocol p)) (control_frame c.protocol p v e))

  -- The first message of the handshake carries no data.
  greet-cases :
      (P : TunnelCore → Type 0) (mode : ClientMode) (c : TunnelCore)
      → c.ws ≡ some ws_open
      → IsSendable c
      → P c
      → ((f : Bytes) → carried_by w c.protocol (sent f) ≡ [] → P (emit (sent f) c))
      → P (greet w mode c)
  unfolding greet
  greet-cases P source c o v stays goes =
      control-cases P _ c o
        (record {
          type = omega arith;
          stream_id = v.stream_id;
          payload = tt;
          service_id = v.service_id;
          available_service_ids = tt;
          connection_id = tt;
        })
        refl goes
  greet-cases P destination c o v stays goes = elim (Bool-cases (is_truthy c.config.service_id)) [
    | inl named ↦ rw named (
        control-cases P _ c o
          (record {
            type = omega arith;
            stream_id = tt;
            payload = tt;
            service_id = tt;
            available_service_ids = one_id c.config.service_id v.service_id;
            connection_id = tt;
          })
          refl goes)
    | inr unnamed ↦ rw unnamed stays
  ]

  on_open-ReadsAs :
      (c : TunnelCore) {r : ReadyState}
      → c.ws ≡ some r
      → c.tunnel_ready ≡ false
      → c.message_queue ≡ []
      → carried w c.protocol c.effects ≡ []
      → IsSendable c
      → ReadsAs w c.config.client_mode c.protocol shut_pipe (on_open w c)
  unfolding on_open
  on_open-ReadsAs c o r q e v =
      greet-cases (λ d. ReadsAs w c.config.client_mode c.protocol shut_pipe (emit resolved d))
        c.config.client_mode now_open socket_open sendable
        (reads (c.effects ++ (resolved ∷ [])) (quiet c.effects resolved e refl))
        (λ f none.
          reads ((c.effects ++ (sent f ∷ [])) ++ (resolved ∷ []))
            (quiet (c.effects ++ (sent f ∷ [])) resolved (quiet c.effects (sent f) e none) refl))
    where
      now_open : TunnelCore
      now_open = record c { ws = Option.map (λ _. ws_open) c.ws; is_connected = true }

      socket_open : now_open.ws ≡ some ws_open
      socket_open = ap (Option.map (λ _. ws_open)) o

      sendable : IsSendable now_open
      sendable = record {
        stream_id = v.stream_id;
        connection_id = v.connection_id;
        service_id = v.service_id;
        short = v.short;
      }

      quiet :
          (es : List Effect) (x : Effect)
          → carried w c.protocol es ≡ []
          → carried_by w c.protocol x ≡ []
          → carried w c.protocol (es ++ (x ∷ [])) ≡ []
      quiet es x a b =
          carried-append w c.protocol es (x ∷ [])
          ∙ ap (λ y. y ++ (carried_by w c.protocol x ++ [])) a
          ∙ ap (λ y. y ++ []) b

      reads :
          (es : List Effect)
          → carried w c.protocol es ≡ []
          → ReadsAs w c.config.client_mode c.protocol shut_pipe (record now_open { effects = es })
      reads es h = record {
        in_mode = refl;
        in_protocol = refl;
        socket_open = socket_open;
        connected = refl;
        ready = r;
        queued = ap concat q;
        passed_on = h;
        sendable = record {
          stream_id = v.stream_id;
          connection_id = v.connection_id;
          service_id = v.service_id;
          short = v.short;
        };
      }

  pub opened-ReadsAs :
      (config : SecureTunnelConfig) (callbacks : Callbacks) {url : Text}
      → build_websocket_url config ≡ some url
      → Own IsAscii config.service_id
      → own_length config.service_id ≤ 900
      → ReadsAs w config.client_mode
          (new_transport config callbacks).core.protocol
          shut_pipe
          (opened w config callbacks)
  unfolding step new_transport
  opened-ReadsAs config callbacks h a l =
      rw (connect_open (new_transport config callbacks).core h) (
        on_open-ReadsAs _ refl refl refl refl (record {
          stream_id = omega arith;
          connection_id = omega arith;
          service_id = a;
          short = l;
        }))
