-- ===== src/Messages/V3.antt =====
-- ProtocolV3Message of lib/aws-iot-tunnel/protobuf-messages.js. A field of a message is its own
-- property, if it has one; `none` leaves the prototype's default.
use mathlib.Core.Option
use sshclient_sftp_wasm.Base.{
  ℕ, ◌/◌, ◌%◌, ℤ, Bool, Option, none, some, List, [], ◌∷◌, ◌++◌, concat, ◌==◌, if◌then◌else◌, Bytes,
  Text,
}
use sshclient_sftp_wasm.Wire.{Wire}
use sshclient_sftp_wasm.Messages.Props.{Props}
use sshclient_sftp_wasm.Messages.Delimited.{decode_prefixed}
use sshclient_sftp_wasm.Messages.Fields.{Decoded, decode_all, write_own, write_each}

pub record ProtocolV3Message : Type 0 where
  pub type : Option ℤ
  pub stream_id : Option ℤ
  pub ignorable : Option Bool
  pub payload : Option Bytes
  pub service_id : Option Text
  pub available_service_ids : List Text
  pub connection_id : Option ℕ

-- `new ProtocolV3Message()`
abbrev pub new : ProtocolV3Message
new = record {
  type = none;
  stream_id = none;
  ignorable = none;
  payload = none;
  service_id = none;
  available_service_ids = [];
  connection_id = none;
}

-- The constructor copies the properties that are not null.
unfoldable pub create : Props → ProtocolV3Message
create p = record {
  type = p.type;
  stream_id = p.stream_id;
  ignorable = p.ignorable;
  payload = p.payload;
  service_id = p.service_id;
  available_service_ids = Option.get_or p.available_service_ids [];
  connection_id = p.connection_id;
}

module _ (w : Wire) where
  unfoldable pub encode : ProtocolV3Message → Bytes
  encode m = concat (
      write_own w 8 w.write_int32 m.type
      ∷ write_own w 16 w.write_int32 m.stream_id
      ∷ write_own w 24 w.write_bool m.ignorable
      ∷ write_own w 34 w.write_bytes m.payload
      ∷ write_own w 42 w.write_string m.service_id
      ∷ write_each w 50 w.write_string m.available_service_ids
      ∷ write_own w 56 w.write_uint32 m.connection_id
      ∷ [])

  -- `switch (tag >>> 3)`
  unfoldable pub read_field : ℕ → Bytes → ProtocolV3Message → Option (ProtocolV3Message × Bytes)
  read_field tag s m =
      if tag / 8 == 1
      then Option.map (λ (v, r). (record m { type = some v }, r)) (w.read_int32 s)
      else if tag / 8 == 2
      then Option.map (λ (v, r). (record m { stream_id = some v }, r)) (w.read_int32 s)
      else if tag / 8 == 3
      then Option.map (λ (v, r). (record m { ignorable = some v }, r)) (w.read_bool s)
      else if tag / 8 == 4
      then Option.map (λ (v, r). (record m { payload = some v }, r)) (w.read_bytes s)
      else if tag / 8 == 5
      then Option.map (λ (v, r). (record m { service_id = some v }, r)) (w.read_string s)
      else if tag / 8 == 6
      then Option.map
          (λ (v, r). (record m { available_service_ids = m.available_service_ids ++ (v ∷ []) }, r))
          (w.read_string s)
      else if tag / 8 == 7
      then Option.map (λ (v, r). (record m { connection_id = some v }, r)) (w.read_uint32 s)
      else Option.map (λ r. (m, r)) (w.skip_type (tag % 8) s)

  unfoldable pub decode : Bytes → Decoded ProtocolV3Message
  unfolding decode_all read_field
  decode s = decode_all w read_field s new

  -- `this.encode(message, writer).ldelim()`, on a writer that holds nothing else. `ldelim` is the
  -- package's.
  unfoldable pub encode_delimited : (Bytes → Bytes) → ProtocolV3Message → Bytes
  unfolding encode
  encode_delimited ldelim m = ldelim (encode m)

  -- The message, and what the reader has left.
  unfoldable pub decode_delimited : Bytes → Decoded (ProtocolV3Message × Bytes)
  unfolding decode_prefixed read_field
  decode_delimited s = decode_prefixed w read_field s new
