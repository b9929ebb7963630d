-- ===== src/Messages/Skips.antt =====
-- Decoding by an older class: the fields that it does not know are skipped by their wire type.
use sshclient_sftp_wasm.Base.{◌≡◌, refl, IsInt32, [], arith}
use sshclient_sftp_wasm.Wire.{Wire, ReadsBack, Consumes, IsUint32, IsBlob, IsAscii}
use sshclient_sftp_wasm.Messages.Fields.{
  ok, Ends-nil, Ends-write_own, Ends-write_each, Ends-decode_all,
}
use sshclient_sftp_wasm.Messages.RoundTrip.{IsV2, IsV3, AnyBool, Own-any}
use sshclient_sftp_wasm.Messages.V1
use sshclient_sftp_wasm.Messages.V1.{ProtocolV1Message}
use sshclient_sftp_wasm.Messages.V2
use sshclient_sftp_wasm.Messages.V2.{ProtocolV2Message}
use sshclient_sftp_wasm.Messages.V3
use sshclient_sftp_wasm.Messages.V3.{ProtocolV3Message}

-- The fields of a V2 message that a V1 message has.
abbrev pub v1_of_v2 : ProtocolV2Message → ProtocolV1Message
v1_of_v2 m = record {
  type = m.type;
  stream_id = m.stream_id;
  ignorable = m.ignorable;
  payload = m.payload;
}

-- The fields of a V3 message that a V2 message has.
abbrev pub v2_of_v3 : ProtocolV3Message → ProtocolV2Message
v2_of_v3 m = record {
  type = m.type;
  stream_id = m.stream_id;
  ignorable = m.ignorable;
  payload = m.payload;
  service_id = m.service_id;
  available_service_ids = m.available_service_ids;
}

module _ (w : Wire) (back : ReadsBack w) (takes : Consumes w) where
  -- A V1 peer that is sent a V2 message decodes the V1 fields of it, and skips the service ids.
  pub v1_decode-v2_encode :
      (m : ProtocolV2Message) → IsV2 m → V1.decode w (V2.encode w m) ≡ ok (v1_of_v2 m)
  unfolding V1.decode V2.encode
  v1_decode-v2_encode m v = Ends-decode_all w (V1.read_field w) _ V1.new (v1_of_v2 m) (
      Ends-write_own w (V1.read_field w) back takes IsInt32 8 w.write_int32 _ _
        (λ o. record V1.new { type = o }) _ m.type (omega arith) refl
        (λ x p. rw (back.int32_back x _ p)) v.type
        (Ends-write_own w (V1.read_field w) back takes IsInt32 16 w.write_int32 _ _
          (λ o. record V1.new { type = m.type; stream_id = o }) _ m.stream_id (omega arith) refl
          (λ x p. rw (back.int32_back x _ p)) v.stream_id
          (Ends-write_own w (V1.read_field w) back takes AnyBool 24 w.write_bool _ _
            (λ o. record V1.new { type = m.type; stream_id = m.stream_id; ignorable = o }) _
            m.ignorable (omega arith) refl (λ x p. rw (back.bool_back x _)) (Own-any m.ignorable)
            (Ends-write_own w (V1.read_field w) back takes IsBlob 34 w.write_bytes _ _
              (λ o. record V1.new {
                type = m.type;
                stream_id = m.stream_id;
                ignorable = m.ignorable;
                payload = o;
              })
              _ m.payload (omega arith) refl (λ x p. rw (back.bytes_back x _ p)) v.payload
              (Ends-write_own w (V1.read_field w) back takes IsAscii 42 w.write_string _ _
                (λ o. record V1.new {
                  type = m.type;
                  stream_id = m.stream_id;
                  ignorable = m.ignorable;
                  payload = m.payload;
                })
                _ m.service_id (omega arith) refl (λ x p. rw (back.skip_string x _ p)) v.service_id
                (Ends-write_each w (V1.read_field w) back takes IsAscii 50 w.write_string _
                  (λ o. record V1.new {
                    type = m.type;
                    stream_id = m.stream_id;
                    ignorable = m.ignorable;
                    payload = m.payload;
                  })
                  _ [] m.available_service_ids (omega arith)
                  (λ before x more p. rw (back.skip_string x more p)) v.available_service_ids
                  (Ends-nil w (V1.read_field w) _)))))))

  -- A V2 peer that is sent a V3 message decodes the V2 fields of it, and skips the connection id.
  pub v2_decode-v3_encode :
      (m : ProtocolV3Message) → IsV3 m → V2.decode w (V3.encode w m) ≡ ok (v2_of_v3 m)
  unfolding V2.decode V3.encode
  v2_decode-v3_encode m v = Ends-decode_all w (V2.read_field w) _ V2.new (v2_of_v3 m) (
      Ends-write_own w (V2.read_field w) back takes IsInt32 8 w.write_int32 _ _
        (λ o. record V2.new { type = o }) _ m.type (omega arith) refl
        (λ x p. rw (back.int32_back x _ p)) v.type
        (Ends-write_own w (V2.read_field w) back takes IsInt32 16 w.write_int32 _ _
          (λ o. record V2.new { type = m.type; stream_id = o }) _ m.stream_id (omega arith) refl
          (λ x p. rw (back.int32_back x _ p)) v.stream_id
          (Ends-write_own w (V2.read_field w) back takes AnyBool 24 w.write_bool _ _
            (λ o. record V2.new { type = m.type; stream_id = m.stream_id; ignorable = o }) _
            m.ignorable (omega arith) refl (λ x p. rw (back.bool_back x _)) (Own-any m.ignorable)
            (Ends-write_own w (V2.read_field w) back takes IsBlob 34 w.write_bytes _ _
              (λ o. record V2.new {
                type = m.type;
                stream_id = m.stream_id;
                ignorable = m.ignorable;
                payload = o;
              })
              _ m.payload (omega arith) refl (λ x p. rw (back.bytes_back x _ p)) v.payload
              (Ends-write_own w (V2.read_field w) back takes IsAscii 42 w.write_string _ _
                (λ o. record V2.new {
                  type = m.type;
                  stream_id = m.stream_id;
                  ignorable = m.ignorable;
                  payload = m.payload;
                  service_id = o;
                })
                _ m.service_id (omega arith) refl (λ x p. rw (back.string_back x _ p)) v.service_id
                (Ends-write_each w (V2.read_field w) back takes IsAscii 50 w.write_string _
                  (λ o. record V2.new {
                    type = m.type;
                    stream_id = m.stream_id;
                    ignorable = m.ignorable;
                    payload = m.payload;
                    service_id = m.service_id;
                    available_service_ids = o;
                  })
                  _ [] m.available_service_ids (omega arith)
                  (λ before x more p. rw (back.string_back x more p)) v.available_service_ids
                  (Ends-write_own w (V2.read_field w) back takes IsUint32 56 w.write_uint32 _ _
                    (λ o. record V2.new {
                      type = m.type;
                      stream_id = m.stream_id;
                      ignorable = m.ignorable;
                      payload = m.payload;
                      service_id = m.service_id;
                      available_service_ids = m.available_service_ids;
                    })
                    _ m.connection_id (omega arith) refl (λ x p. rw (back.skip_uint32 x _ p))
                    v.connection_id (Ends-nil w (V2.read_field w) _))))))))
