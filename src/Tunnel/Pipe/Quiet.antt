-- ===== src/Tunnel/Pipe/Quiet.antt =====
-- What SecureTunnelTransport.handleMessage of lib/aws-iot-tunnel.ts does with a message that does not
-- end the handshake, and how the two messages that do are told.
use sshclient_sftp_wasm.Base.{
  ℕ, negsuc, ◌≡◌, refl, inl, inr, IsInt32, ℤ, pos, is_nat, Bool, true, false, Bool-cases, [], arith,
}
use sshclient_sftp_wasm.Wire.{Wire}
use sshclient_sftp_wasm.Messages.Class.{Protocol, Received}
use sshclient_sftp_wasm.Tunnel.State.{
  ClientMode, source, destination, Effect, data_out, close_out, TunnelCore, emit, call_back,
  type_data, type_stream_start, type_stream_reset, type_session_reset, type_service_ids,
}
use sshclient_sftp_wasm.Tunnel.Incoming.{handle_message}
use sshclient_sftp_wasm.Tunnel.Queue.{EndsHandshake, agreed_stream}
use sshclient_sftp_wasm.Tunnel.Pipe.{ends_handshake, carried_by}

call_back-cases :
    (P : TunnelCore → Type 0) (set : Bool) (e : Effect) (c : TunnelCore)
    → P c
    → P (emit e c)
    → P (call_back set e c)
call_back-cases P true e c stays goes = goes
call_back-cases P false e c stays goes = stays

-- A message that would end the handshake of the other mode changes nothing.
other_mode_start :
    (P : TunnelCore → Type 0) (mode : ClientMode) (m : Received) (x c : TunnelCore)
    → ends_handshake mode m ≡ false
    → is_nat type_stream_start m.type ≡ true
    → P c
    → P (elim mode [ destination ↦ x | source ↦ c ])
other_mode_start P source m x c e b stays = stays
other_mode_start P destination m x c e b stays = cc

other_mode_ids :
    (P : TunnelCore → Type 0) (mode : ClientMode) (m : Received) (x c : TunnelCore)
    → ends_handshake mode m ≡ false
    → is_nat type_service_ids m.type ≡ true
    → P c
    → P (elim mode [ source ↦ x | destination ↦ c ])
other_mode_ids P source m x c e b stays = cc
other_mode_ids P destination m x c e b stays = stays

module _ (w : Wire) where
  -- A message that neither ends the handshake nor resets the session changes nothing but that the
  -- owner is called back.
  pub handle_message-cases :
      (P : TunnelCore → Type 0) (q : Protocol) (m : Received) (c : TunnelCore)
      → ends_handshake c.config.client_mode m ≡ false
      → is_nat type_session_reset m.type ≡ false
      → P c
      → ((e : Effect) → carried_by w q e ≡ [] → P (emit e c))
      → P (handle_message w m c)
  unfolding handle_message
  handle_message-cases P q m c quiet kept stays goes = elim (Bool-cases (is_nat type_data m.type)) [
    | inl a ↦ rw a (
        call_back-cases P c.callbacks.on_data (data_out m.payload) c stays
          (goes (data_out m.payload) refl))
    | inr a ↦ rw a (elim (Bool-cases (is_nat type_stream_start m.type)) [
      | inl b ↦ rw b (other_mode_start P c.config.client_mode m _ c quiet b stays)
      | inr b ↦ rw b (elim (Bool-cases (is_nat type_stream_reset m.type)) [
        | inl d ↦
            rw d (call_back-cases P c.callbacks.on_close close_out c stays (goes close_out refl))
        | inr d ↦
            rw (d, kept)
              (elim (Bool-cases (is_nat type_service_ids m.type)) [
                | inl g ↦ rw g (other_mode_ids P c.config.client_mode m _ c quiet g stays)
                | inr g ↦ rw g stays
              ])
      ])
    ])
  ]

is_nat-eq : (k : ℕ) (z : ℤ) → is_nat k z ≡ true → z ≡ pos k
is_nat-eq k (pos n) h = ground arith
is_nat-eq k (negsuc n) h = cc

pub ends_handshake-EndsHandshake :
    (k : ClientMode) (m : Received) (c : TunnelCore)
    → c.config.client_mode ≡ k
    → ends_handshake k m ≡ true
    → EndsHandshake m c
ends_handshake-EndsHandshake source m c e h = inl (e, is_nat-eq type_service_ids m.type h)
ends_handshake-EndsHandshake destination m c e h = inr (e, is_nat-eq type_stream_start m.type h)

pub agreed_stream-IsInt32 :
    (m : Received) (c : TunnelCore)
    → IsInt32 m.stream_id
    → IsInt32 c.stream_id
    → IsInt32 (agreed_stream m c)
agreed_stream-IsInt32 m c h k = go c.config.client_mode
  where
    go : (o : ClientMode) → IsInt32 (elim o [ source ↦ c.stream_id | destination ↦ m.stream_id ])
    go source = k
    go destination = h
