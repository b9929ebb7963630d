-- ===== src/Messages/V1.antt =====
-- ProtocolV1Message of lib/aws-iot-tunnel/protobuf-messages.js. A field of a message is its own
-- property, if it has one; `none` leaves the prototype's default.
use mathlib.Core.Option
use sshclient_sftp_wasm.Base.{
  ℕ, ◌/◌, ◌%◌, ℤ, Bool, Option, none, some, [], ◌∷◌, concat, ◌==◌, if◌then◌else◌, Bytes,
}
use sshclient_sftp_wasm.Wire.{Wire}
use sshclient_sftp_wasm.Messages.Props.{Props}
use sshclient_sftp_wasm.Messages.Delimited.{decode_prefixed}
use sshclient_sftp_wasm.Messages.Fields.{Decoded, decode_all, write_own}

pub record ProtocolV1Message : Type 0 where
  pub type : Option ℤ
  pub stream_id : Option ℤ
  pub ignorable : Option Bool
  pub payload : Option Bytes

-- `new ProtocolV1Message()`
abbrev pub new : ProtocolV1Message
new = record { type = none; stream_id = none; ignorable = none; payload = none }

-- The constructor copies the properties that are not null. The other properties of the object
-- are no fields of this message: `encode` does not write them.
unfoldable pub create : Props → ProtocolV1Message
create p = record {
  type = p.type;
  stream_id = p.stream_id;
  ignorable = p.ignorable;
  payload = p.payload;
}

module _ (w : Wire) where
  unfoldable pub encode : ProtocolV1Message → Bytes
  encode m = concat (
      write_own w 8 w.write_int32 m.type
      ∷ write_own w 16 w.write_int32 m.stream_id
      ∷ write_own w 24 w.write_bool m.ignorable
      ∷ write_own w 34 w.write_bytes m.payload
      ∷ [])

  -- `switch (tag >>> 3)`
  unfoldable pub read_field : ℕ → Bytes → ProtocolV1Message → Option (ProtocolV1Message × Bytes)
  read_field tag s m =
      if tag / 8 == 1
      then Option.map (λ (v, r). (record m { type = some v }, r)) (w.read_int32 s)
      else if tag / 8 == 2
      then Option.map (λ (v, r). (record m { stream_id = some v }, r)) (w.read_int32 s)
      else if tag / 8 == 3
      then Option.map (λ (v, r). (record m { ignorable = some v }, r)) (w.read_bool s)
      else if tag / 8 == 4
      then Option.map (λ (v, r). (record m { payload = some v }, r)) (w.read_bytes s)
      else Option.map (λ r. (m, r)) (w.skip_type (tag % 8) s)

  unfoldable pub decode : Bytes → Decoded ProtocolV1Message
  unfolding decode_all read_field
  decode s = decode_all w read_field s new

  -- `this.encode(message, writer).ldelim()`, on a writer that holds nothing else. `ldelim` is the
  -- package's.
  unfoldable pub encode_delimited : (Bytes → Bytes) → ProtocolV1Message → Bytes
  unfolding encode
  encode_delimited ldelim m = ldelim (encode m)

  -- The message, and what the reader has left.
  unfoldable pub decode_delimited : Bytes → Decoded (ProtocolV1Message × Bytes)
  unfolding decode_prefixed read_field
  decode_delimited s = decode_prefixed w read_field s new
