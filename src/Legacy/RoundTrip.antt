-- ===== src/Legacy/RoundTrip.antt =====
-- What TunnelMessage.decode of lib/tunnel.js makes of an encoding and of other bytes.
use sshclient_sftp_wasm.Base.{ℕ, ◌%◌, ◌≡◌, ◌≢◌, refl, IsInt32, none, [], All, arith, length, Bytes}
use sshclient_sftp_wasm.Wire.{Wire, ReadsBack, Consumes, IsBlob, IsAscii}
use sshclient_sftp_wasm.Messages.Fields.{
  ok, stuck, Own, Ends-nil, Ends-write_own, Ends-write_each, Ends-decode_all, decode_all-ne-stuck,
}
use sshclient_sftp_wasm.Messages.RoundTrip.{AnyBool, Own-any}
use sshclient_sftp_wasm.Messages.Total.{Leaves, Leaves-read, Leaves-skip, Leaves-bound}
use sshclient_sftp_wasm.Legacy.TunnelMessage.{TunnelMessage, new, encode, read_field, decode}

pub record IsInRange (m : TunnelMessage) : Type 0 where
  pub type : Own IsInt32 m.type
  pub stream_id : Own IsInt32 m.stream_id
  pub connection_id : Own IsInt32 m.connection_id
  pub payload : Own IsBlob m.payload
  pub service_id : Own IsAscii m.service_id
  pub available_service_ids : All IsAscii m.available_service_ids

module _ (w : Wire) (takes : Consumes w) where
  -- A TunnelMessage whose numbers are 32-bit, whose payload is shorter than 4 GiB and whose service
  -- ids are ASCII is decoded from its encoding unchanged, with the service ids in their order.
  pub tunnel_decode-encode :
      (back : ReadsBack w) (m : TunnelMessage) → IsInRange m → decode w (encode w m) ≡ ok m
  unfolding decode encode
  tunnel_decode-encode back m v = Ends-decode_all w (read_field w) _ new m (
      Ends-write_own w (read_field w) back takes IsInt32 8 w.write_int32 _ _
        (λ o. record new { type = o }) _ m.type (omega arith) refl
        (λ x p. rw (back.int32_back x _ p)) v.type
        (Ends-write_own w (read_field w) back takes IsInt32 16 w.write_int32 _ _
          (λ o. record new { type = m.type; stream_id = o }) _ m.stream_id (omega arith) refl
          (λ x p. rw (back.int32_back x _ p)) v.stream_id
          (Ends-write_own w (read_field w) back takes IsInt32 24 w.write_int32 _ _
            (λ o. record new { type = m.type; stream_id = m.stream_id; connection_id = o }) _
            m.connection_id (omega arith) refl (λ x p. rw (back.int32_back x _ p)) v.connection_id
            (Ends-write_own w (read_field w) back takes AnyBool 32 w.write_bool _ _
              (λ o. record m {
                ignorable = o;
                payload = none;
                service_id = none;
                available_service_ids = [];
              })
              _ m.ignorable (omega arith) refl (λ x p. rw (back.bool_back x _))
              (Own-any m.ignorable)
              (Ends-write_own w (read_field w) back takes IsBlob 42 w.write_bytes _ _
                (λ o. record m { payload = o; service_id = none; available_service_ids = [] }) _
                m.payload (omega arith) refl (λ x p. rw (back.bytes_back x _ p)) v.payload
                (Ends-write_own w (read_field w) back takes IsAscii 50 w.write_string _ _
                  (λ o. record m { service_id = o; available_service_ids = [] }) _ m.service_id
                  (omega arith) refl (λ x p. rw (back.string_back x _ p)) v.service_id
                  (Ends-write_each w (read_field w) back takes IsAscii 58 w.write_string _
                    (λ o. record m { available_service_ids = o }) _ [] m.available_service_ids
                    (omega arith) (λ before x more p. rw (back.string_back x more p))
                    v.available_service_ids (Ends-nil w (read_field w) _))))))))

  pub tunnel_read_field :
      (tag : ℕ) (s : Bytes) (m : TunnelMessage) → Leaves (length s) (read_field w tag s m)
  unfolding read_field
  tunnel_read_field tag s m = ground (
    arith,
    Leaves-read (length s) (w.read_int32 s) (takes.int32_takes s),
    Leaves-read (length s) (w.read_bool s) (takes.bool_takes s),
    Leaves-read (length s) (w.read_bytes s) (takes.bytes_takes s),
    Leaves-read (length s) (w.read_string s) (takes.string_takes s),
    Leaves-skip (length s) m (w.skip_type (tag % 8) s) (takes.skip_takes (tag % 8) s),
  )

  -- On any bytes TunnelMessage.decode returns a message or throws: the fuel suffices.
  pub tunnel_decode-ne-stuck : (s : Bytes) → decode w s ≢ stuck
  unfolding decode
  tunnel_decode-ne-stuck s =
      decode_all-ne-stuck w _ takes
        (λ tag t m m' r. Leaves-bound _ _ (tunnel_read_field tag t m) m' r) s new
