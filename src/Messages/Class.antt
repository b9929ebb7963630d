-- ===== src/Messages/Class.antt =====
-- The message class that lib/aws-iot-tunnel.ts picks by the protocol version, and what it reads of
-- a decoded message.
use mathlib.Core.Option
use sshclient_sftp_wasm.Base.{ℤ, pos, Option, Bytes, []}
use sshclient_sftp_wasm.Wire.{Wire}
use sshclient_sftp_wasm.Messages.Props.{Props}
use sshclient_sftp_wasm.Messages.Fields.{Decoded, ok, thrown, stuck}
use sshclient_sftp_wasm.Messages.V1
use sshclient_sftp_wasm.Messages.V2
use sshclient_sftp_wasm.Messages.V3

pub data Protocol : Type 0 where
  v1 v2 v3 : Protocol

-- The properties that `handleMessage` acts on. An absent one has the prototype's value.
pub record Received : Type 0 where
  pub type : ℤ
  pub stream_id : ℤ
  pub payload : Bytes

abbrev pub received : Option ℤ → Option ℤ → Option Bytes → Received
received type stream_id payload = record {
  type = Option.get_or type (pos 0);
  stream_id = Option.get_or stream_id (pos 0);
  payload = Option.get_or payload [];
}

abbrev pub decoded_map {ℓ κ} : {A : Type ℓ} {B : Type κ} → (A → B) → Decoded A → Decoded B
decoded_map f (ok a) = ok (f a)
decoded_map f thrown = thrown
decoded_map f stuck = stuck

module _ (w : Wire) where
  -- `messageClass.encode(messageClass.create(message)).finish()`
  unfoldable pub encode_message : Protocol → Props → Bytes
  unfolding V1.create V1.encode V2.create V2.encode V3.create V3.encode
  encode_message v1 p = V1.encode w (V1.create p)
  encode_message v2 p = V2.encode w (V2.create p)
  encode_message v3 p = V3.encode w (V3.create p)

  unfoldable pub decode_message : Protocol → Bytes → Decoded Received
  unfolding V1.decode V2.decode V3.decode
  decode_message v1 s = decoded_map (λ m. received m.type m.stream_id m.payload) (V1.decode w s)
  decode_message v2 s = decoded_map (λ m. received m.type m.stream_id m.payload) (V2.decode w s)
  decode_message v3 s = decoded_map (λ m. received m.type m.stream_id m.payload) (V3.decode w s)
