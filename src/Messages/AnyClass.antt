-- ===== src/Messages/AnyClass.antt =====
-- The message class of any protocol version: what it decodes of what it encoded, and how long that
-- is.
use mathlib.Core.Option
use sshclient_sftp_wasm.Base.{
  ℕ, ◌+◌, ◌≤◌, ◌≡◌, ap, IsInt32, Option, none, some, List, [], length, All, arith, Bytes,
  length-append,
}
use sshclient_sftp_wasm.Wire.{Wire, ReadsBack, Consumes, Sizes, IsUint32, IsBlob, IsAscii}
use sshclient_sftp_wasm.Messages.Props.{Props}
use sshclient_sftp_wasm.Messages.Fields.{ok, Own, write_own, write_each}
use sshclient_sftp_wasm.Messages.V1
use sshclient_sftp_wasm.Messages.V2
use sshclient_sftp_wasm.Messages.V3
use sshclient_sftp_wasm.Messages.RoundTrip.{v1_decode-encode, v2_decode-encode, v3_decode-encode}
use sshclient_sftp_wasm.Messages.Class.{
  Protocol, v1, v2, v3, received, decoded_map, encode_message, decode_message,
}

-- An object that `encode` writes without loss.
pub record IsEncodable (p : Props) : Type 0 where
  pub type : Own IsInt32 p.type
  pub stream_id : Own IsInt32 p.stream_id
  pub payload : Own IsBlob p.payload
  pub service_id : Own IsAscii p.service_id
  pub available_service_ids : Own (All IsAscii) p.available_service_ids
  pub connection_id : Own IsUint32 p.connection_id

All-get_or :
    {A : Type 0} (P : A → Type 0) (o : Option (List A)) → Own (All P) o → All P (Option.get_or o [])
All-get_or P none h = tt
All-get_or P (some xs) h = h

module _ (w : Wire) (back : ReadsBack w) (takes : Consumes w) where
  -- Under each protocol version the peer reads the type, the stream id and the payload that were
  -- given, and the defaults of those that were not.
  pub decode_message-encode_message :
      (q : Protocol) (p : Props)
      → IsEncodable p
      → decode_message w q (encode_message w q p) ≡ ok (received p.type p.stream_id p.payload)
  unfolding decode_message encode_message
  decode_message-encode_message v1 p v =
      ap (decoded_map (λ m. received m.type m.stream_id m.payload)) (
        v1_decode-encode w back takes (V1.create p)
          (record { type = v.type; stream_id = v.stream_id; payload = v.payload }))
  decode_message-encode_message v2 p v =
      ap (decoded_map (λ m. received m.type m.stream_id m.payload)) (
        v2_decode-encode w back takes (V2.create p) (record {
          type = v.type;
          stream_id = v.stream_id;
          payload = v.payload;
          service_id = v.service_id;
          available_service_ids =
              All-get_or IsAscii p.available_service_ids v.available_service_ids;
        }))
  decode_message-encode_message v3 p v =
      ap (decoded_map (λ m. received m.type m.stream_id m.payload)) (
        v3_decode-encode w back takes (V3.create p) (record {
          type = v.type;
          stream_id = v.stream_id;
          payload = v.payload;
          service_id = v.service_id;
          available_service_ids =
              All-get_or IsAscii p.available_service_ids v.available_service_ids;
          connection_id = v.connection_id;
        }))

-- The length of a property that may be absent.
abbrev pub own_length : Option Bytes → ℕ
own_length none = 0
own_length (some b) = length b

module _ (w : Wire) (sizes : Sizes w) where
  write_own-size :
      {A : Type 0} (P : A → Type 0) (tag : ℕ) (put : A → Bytes) (n : ℕ)
      → IsUint32 tag
      → ((v : A) → P v → length (put v) ≤ n)
      → (o : Option A) → Own P o
      → length (write_own w tag put o) ≤ n + 5
  write_own-size P tag put n t h none p = omega arith
  write_own-size P tag put n t h (some v) p =
      omega (arith, length-append (w.write_uint32 tag) (put v), sizes.uint32_size tag t, h v p)

  write_own-blob :
      (P : Bytes → Type 0) (tag : ℕ) (put : Bytes → Bytes)
      → IsUint32 tag
      → ((v : Bytes) → P v → length (put v) ≤ length v + 5)
      → (o : Option Bytes) → Own P o
      → length (write_own w tag put o) ≤ own_length o + 10
  write_own-blob P tag put t h none p = omega arith
  write_own-blob P tag put t h (some v) p =
      omega (arith, length-append (w.write_uint32 tag) (put v), sizes.uint32_size tag t, h v p)

  write_own-none :
      {A : Type 0} (tag : ℕ) (put : A → Bytes) (o : Option A)
      → o ≡ none
      → length (write_own w tag put o) ≡ 0
  write_own-none tag put o e = rw e

  write_each-none :
      {A : Type 0} (tag : ℕ) (put : A → Bytes) (o : Option (List A))
      → o ≡ none
      → length (write_each w tag put (Option.get_or o [])) ≡ 0
  write_each-none tag put o e = rw e

  -- An object with neither `ignorable` nor available service ids takes its payload, its service id
  -- and at most 60 bytes more.
  pub encode_message-size :
      (q : Protocol) (p : Props)
      → IsEncodable p
      → p.ignorable ≡ none
      → p.available_service_ids ≡ none
      → length (encode_message w q p) ≤ own_length p.payload + own_length p.service_id + 60
  unfolding encode_message
  encode_message-size q p v i a = sized q
    where
      type_size : length (write_own w 8 w.write_int32 p.type) ≤ 15
      type_size =
          write_own-size IsInt32 8 w.write_int32 10 (omega arith) sizes.int32_size p.type v.type

      stream_size : length (write_own w 16 w.write_int32 p.stream_id) ≤ 15
      stream_size =
          write_own-size IsInt32 16 w.write_int32 10 (omega arith) sizes.int32_size p.stream_id
            v.stream_id

      payload_size : length (write_own w 34 w.write_bytes p.payload) ≤ own_length p.payload + 10
      payload_size =
          write_own-blob IsBlob 34 w.write_bytes (omega arith) sizes.bytes_size p.payload v.payload

      service_size :
          length (write_own w 42 w.write_string p.service_id) ≤ own_length p.service_id + 10
      service_size =
          write_own-blob IsAscii 42 w.write_string (omega arith) sizes.string_size p.service_id
            v.service_id

      connection_size : length (write_own w 56 w.write_uint32 p.connection_id) ≤ 10
      connection_size =
          write_own-size IsUint32 56 w.write_uint32 5 (omega arith) sizes.uint32_size
            p.connection_id v.connection_id

      sized :
          (q : Protocol)
          → length (encode_message w q p) ≤ own_length p.payload + own_length p.service_id + 60
      sized v1 = omega (
        arith,
        length-append {0},
        type_size,
        stream_size,
        payload_size,
        write_own-none 24 w.write_bool p.ignorable i,
      )
      sized v2 = omega (
        arith,
        length-append {0},
        type_size,
        stream_size,
        payload_size,
        service_size,
        write_own-none 24 w.write_bool p.ignorable i,
        write_each-none 50 w.write_string p.available_service_ids a,
      )
      sized v3 = omega (
        arith,
        length-append {0},
        type_size,
        stream_size,
        payload_size,
        service_size,
        connection_size,
        write_own-none 24 w.write_bool p.ignorable i,
        write_each-none 50 w.write_string p.available_service_ids a,
      )
