-- ===== src/Messages/RoundTrip.antt =====
-- Messages in range, and the steps by which a class reads what its `encode` wrote.
use sshclient_sftp_wasm.Base.{◌≡◌, refl, IsInt32, Bool, Option, none, some, [], All, arith}
use sshclient_sftp_wasm.Wire.{Wire, ReadsBack, Consumes, IsUint32, IsBlob, IsAscii}
use sshclient_sftp_wasm.Messages.Fields.{
  ok, Own, Ends-nil, Ends-write_own, Ends-write_each, Ends-decode_all,
}
use sshclient_sftp_wasm.Messages.V1
use sshclient_sftp_wasm.Messages.V1.{ProtocolV1Message}
use sshclient_sftp_wasm.Messages.V2
use sshclient_sftp_wasm.Messages.V2.{ProtocolV2Message}
use sshclient_sftp_wasm.Messages.V3
use sshclient_sftp_wasm.Messages.V3.{ProtocolV3Message}

pub record IsV1 (m : ProtocolV1Message) : Type 0 where
  pub type : Own IsInt32 m.type
  pub stream_id : Own IsInt32 m.stream_id
  pub payload : Own IsBlob m.payload

pub record IsV2 (m : ProtocolV2Message) : Type 0 where
  pub type : Own IsInt32 m.type
  pub stream_id : Own IsInt32 m.stream_id
  pub payload : Own IsBlob m.payload
  pub service_id : Own IsAscii m.service_id
  pub available_service_ids : All IsAscii m.available_service_ids

pub record IsV3 (m : ProtocolV3Message) : Type 0 where
  pub type : Own IsInt32 m.type
  pub stream_id : Own IsInt32 m.stream_id
  pub payload : Own IsBlob m.payload
  pub service_id : Own IsAscii m.service_id
  pub available_service_ids : All IsAscii m.available_service_ids
  pub connection_id : Own IsUint32 m.connection_id

abbrev pub AnyBool : Bool → Type 0
AnyBool b = Unit

pub Own-any : (o : Option Bool) → Own AnyBool o
Own-any none = tt
Own-any (some b) = tt

module _ (w : Wire) (back : ReadsBack w) (takes : Consumes w) where
  -- A V1 message whose numbers are 32-bit and whose payload is shorter than 4 GiB is decoded from
  -- its encoding unchanged, absent fields staying absent.
  pub v1_decode-encode : (m : ProtocolV1Message) → IsV1 m → V1.decode w (V1.encode w m) ≡ ok m
  unfolding V1.decode V1.encode
  v1_decode-encode m v = Ends-decode_all w (V1.read_field w) _ V1.new m (
      Ends-write_own w (V1.read_field w) back takes IsInt32 8 w.write_int32 _ _
        (λ o. record V1.new { type = o }) _ m.type (omega arith) refl
        (λ x p. rw (back.int32_back x _ p)) v.type
        (Ends-write_own w (V1.read_field w) back takes IsInt32 16 w.write_int32 _ _
          (λ o. record V1.new { type = m.type; stream_id = o }) _ m.stream_id (omega arith) refl
          (λ x p. rw (back.int32_back x _ p)) v.stream_id
          (Ends-write_own w (V1.read_field w) back takes AnyBool 24 w.write_bool _ _
            (λ o. record V1.new { type = m.type; stream_id = m.stream_id; ignorable = o }) _
            m.ignorable (omega arith) refl (λ x p. rw (back.bool_back x _)) (Own-any m.ignorable)
            (Ends-write_own w (V1.read_field w) back takes IsBlob 34 w.write_bytes _ _
              (λ o. record V1.new {
                type = m.type;
                stream_id = m.stream_id;
                ignorable = m.ignorable;
                payload = o;
              })
              _ m.payload (omega arith) refl (λ x p. rw (back.bytes_back x _ p)) v.payload
              (Ends-nil w (V1.read_field w) _)))))

  -- A V2 message whose numbers are 32-bit, whose payload is shorter than 4 GiB and whose service
  -- ids are ASCII is decoded from its encoding unchanged, with the service ids in their order.
  pub v2_decode-encode : (m : ProtocolV2Message) → IsV2 m → V2.decode w (V2.encode w m) ≡ ok m
  unfolding V2.decode V2.encode
  v2_decode-encode m v = Ends-decode_all w (V2.read_field w) _ V2.new m (
      Ends-write_own w (V2.read_field w) back takes IsInt32 8 w.write_int32 _ _
        (λ o. record V2.new { type = o }) _ m.type (omega arith) refl
        (λ x p. rw (back.int32_back x _ p)) v.type
        (Ends-write_own w (V2.read_field w) back takes IsInt32 16 w.write_int32 _ _
          (λ o. record V2.new { type = m.type; stream_id = o }) _ m.stream_id (omega arith) refl
          (λ x p. rw (back.int32_back x _ p)) v.stream_id
          (Ends-write_own w (V2.read_field w) back takes AnyBool 24 w.write_bool _ _
            (λ o. record V2.new { type = m.type; stream_id = m.stream_id; ignorable = o }) _
            m.ignorable (omega arith) refl (λ x p. rw (back.bool_back x _)) (Own-any m.ignorable)
            (Ends-write_own w (V2.read_field w) back takes IsBlob 34 w.write_bytes _ _
              (λ o. record V2.new {
                type = m.type;
                stream_id = m.stream_id;
                ignorable = m.ignorable;
                payload = o;
              })
              _ m.payload (omega arith) refl (λ x p. rw (back.bytes_back x _ p)) v.payload
              (Ends-write_own w (V2.read_field w) back takes IsAscii 42 w.write_string _ _
                (λ o. record V2.new {
                  type = m.type;
                  stream_id = m.stream_id;
                  ignorable = m.ignorable;
                  payload = m.payload;
                  service_id = o;
                })
                _ m.service_id (omega arith) refl (λ x p. rw (back.string_back x _ p)) v.service_id
                (Ends-write_each w (V2.read_field w) back takes IsAscii 50 w.write_string _
                  (λ o. record V2.new {
                    type = m.type;
                    stream_id = m.stream_id;
                    ignorable = m.ignorable;
                    payload = m.payload;
                    service_id = m.service_id;
                    available_service_ids = o;
                  })
                  _ [] m.available_service_ids (omega arith)
                  (λ before x more p. rw (back.string_back x more p)) v.available_service_ids
                  (Ends-nil w (V2.read_field w) _)))))))

  -- A V3 message whose numbers are 32-bit, whose payload is shorter than 4 GiB and whose service
  -- ids are ASCII is decoded from its encoding unchanged, its connection id included.
  pub v3_decode-encode : (m : ProtocolV3Message) → IsV3 m → V3.decode w (V3.encode w m) ≡ ok m
  unfolding V3.decode V3.encode
  v3_decode-encode m v = Ends-decode_all w (V3.read_field w) _ V3.new m (
      Ends-write_own w (V3.read_field w) back takes IsInt32 8 w.write_int32 _ _
        (λ o. record V3.new { type = o }) _ m.type (omega arith) refl
        (λ x p. rw (back.int32_back x _ p)) v.type
        (Ends-write_own w (V3.read_field w) back takes IsInt32 16 w.write_int32 _ _
          (λ o. record V3.new { type = m.type; stream_id = o }) _ m.stream_id (omega arith) refl
          (λ x p. rw (back.int32_back x _ p)) v.stream_id
          (Ends-write_own w (V3.read_field w) back takes AnyBool 24 w.write_bool _ _
            (λ o. record V3.new { type = m.type; stream_id = m.stream_id; ignorable = o }) _
            m.ignorable (omega arith) refl (λ x p. rw (back.bool_back x _)) (Own-any m.ignorable)
            (Ends-write_own w (V3.read_field w) back takes IsBlob 34 w.write_bytes _ _
              (λ o. record V3.new {
                type = m.type;
                stream_id = m.stream_id;
                ignorable = m.ignorable;
                payload = o;
              })
              _ m.payload (omega arith) refl (λ x p. rw (back.bytes_back x _ p)) v.payload
              (Ends-write_own w (V3.read_field w) back takes IsAscii 42 w.write_string _ _
                (λ o. record V3.new {
                  type = m.type;
                  stream_id = m.stream_id;
                  ignorable = m.ignorable;
                  payload = m.payload;
                  service_id = o;
                })
                _ m.service_id (omega arith) refl (λ x p. rw (back.string_back x _ p)) v.service_id
                (Ends-write_each w (V3.read_field w) back takes IsAscii 50 w.write_string _
                  (λ o. record V3.new {
                    type = m.type;
                    stream_id = m.stream_id;
                    ignorable = m.ignorable;
                    payload = m.payload;
                    service_id = m.service_id;
                    available_service_ids = o;
                  })
                  _ [] m.available_service_ids (omega arith)
                  (λ before x more p. rw (back.string_back x more p)) v.available_service_ids
                  (Ends-write_own w (V3.read_field w) back takes IsUint32 56 w.write_uint32 _ _
                    (λ o. record V3.new {
                      type = m.type;
                      stream_id = m.stream_id;
                      ignorable = m.ignorable;
                      payload = m.payload;
                      service_id = m.service_id;
                      available_service_ids = m.available_service_ids;
                      connection_id = o;
                    })
                    _ m.connection_id (omega arith) refl (λ x p. rw (back.uint32_back x _ p))
                    v.connection_id (Ends-nil w (V3.read_field w) _))))))))
