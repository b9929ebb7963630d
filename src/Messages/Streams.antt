-- ===== src/Messages/Streams.antt =====
-- Delimited messages in one reader (lib/aws-iot-tunnel/protobuf-messages.js and lib/tunnel.js):
-- each is read with the next ones behind it.
use mathlib.Core.Option
use sshclient_sftp_wasm.Base.{ℕ, ◌%◌, ◌≡◌, refl, Option, none, some, ◌++◌, length, arith, Bytes}
use sshclient_sftp_wasm.Wire.{Wire, ReadsBack, Consumes, Extends, IsLocal, IsUint32}
use sshclient_sftp_wasm.Messages.Fields.{ok}
use sshclient_sftp_wasm.Messages.Delimited.{Delimits, decode_prefixed_lem}
use sshclient_sftp_wasm.Messages.RoundTrip.{
  IsV1, IsV2, IsV3, v1_decode-encode, v2_decode-encode, v3_decode-encode,
}
use sshclient_sftp_wasm.Messages.Total.{Leaves-bound, v1_read_field, v2_read_field, v3_read_field}
use sshclient_sftp_wasm.Messages.V1
use sshclient_sftp_wasm.Messages.V1.{ProtocolV1Message}
use sshclient_sftp_wasm.Messages.V2
use sshclient_sftp_wasm.Messages.V2.{ProtocolV2Message}
use sshclient_sftp_wasm.Messages.V3
use sshclient_sftp_wasm.Messages.V3.{ProtocolV3Message}

pub Extends-skip :
    {M : Type 0} (t : Bytes) (m : M) (o o' : Option Bytes)
    → ((r : Bytes) → o ≡ some r → o' ≡ some (r ++ t))
    → Extends t (Option.map (λ r. (m, r)) o) (Option.map (λ r. (m, r)) o')
Extends-skip t m none o' h = tt
Extends-skip t m (some r) o' h = rw (h r refl) refl

module _ (w : Wire) (here : IsLocal w) where
  v1_read_field-Extends :
      (tag : ℕ) (s t : Bytes) (m : ProtocolV1Message)
      → Extends t (V1.read_field w tag s m) (V1.read_field w tag (s ++ t) m)
  unfolding V1.read_field
  v1_read_field-Extends tag s t m = ground (
    arith,
    here.int32_extends s t,
    here.bool_extends s t,
    here.bytes_extends s t,
    Extends-skip t m (w.skip_type (tag % 8) s) (w.skip_type (tag % 8) (s ++ t))
        (here.skip_extends (tag % 8) s t),
  )

  v2_read_field-Extends :
      (tag : ℕ) (s t : Bytes) (m : ProtocolV2Message)
      → Extends t (V2.read_field w tag s m) (V2.read_field w tag (s ++ t) m)
  unfolding V2.read_field
  v2_read_field-Extends tag s t m = ground (
    arith,
    here.int32_extends s t,
    here.bool_extends s t,
    here.bytes_extends s t,
    here.string_extends s t,
    Extends-skip t m (w.skip_type (tag % 8) s) (w.skip_type (tag % 8) (s ++ t))
        (here.skip_extends (tag % 8) s t),
  )

  v3_read_field-Extends :
      (tag : ℕ) (s t : Bytes) (m : ProtocolV3Message)
      → Extends t (V3.read_field w tag s m) (V3.read_field w tag (s ++ t) m)
  unfolding V3.read_field
  v3_read_field-Extends tag s t m = ground (
    arith,
    here.int32_extends s t,
    here.uint32_extends s t,
    here.bool_extends s t,
    here.bytes_extends s t,
    here.string_extends s t,
    Extends-skip t m (w.skip_type (tag % 8) s) (w.skip_type (tag % 8) (s ++ t))
        (here.skip_extends (tag % 8) s t),
  )

module _ (w : Wire) (back : ReadsBack w) (takes : Consumes w) (here : IsLocal w)
    (ldelim : Bytes → Bytes) (delimits : Delimits w ldelim) where
  pub v1_decode_delimited-encode_delimited :
      (m : ProtocolV1Message) (t : Bytes)
      → IsV1 m
      → IsUint32 (length (V1.encode w m))
      → V1.decode_delimited w (V1.encode_delimited w ldelim m ++ t) ≡ ok (m, t)
  unfolding V1.decode_delimited V1.encode_delimited V1.decode
  v1_decode_delimited-encode_delimited m t v h = rw (delimits (V1.encode w m)) (
      decode_prefixed_lem w (V1.read_field w) takes here
        (λ tag s n n' r. Leaves-bound _ _ (v1_read_field w takes tag s n) n' r)
        (v1_read_field-Extends w here) (V1.encode w m) t V1.new m back h
        (v1_decode-encode w back takes m v))

  pub v2_decode_delimited-encode_delimited :
      (m : ProtocolV2Message) (t : Bytes)
      → IsV2 m
      → IsUint32 (length (V2.encode w m))
      → V2.decode_delimited w (V2.encode_delimited w ldelim m ++ t) ≡ ok (m, t)
  unfolding V2.decode_delimited V2.encode_delimited V2.decode
  v2_decode_delimited-encode_delimited m t v h = rw (delimits (V2.encode w m)) (
      decode_prefixed_lem w (V2.read_field w) takes here
        (λ tag s n n' r. Leaves-bound _ _ (v2_read_field w takes tag s n) n' r)
        (v2_read_field-Extends w here) (V2.encode w m) t V2.new m back h
        (v2_decode-encode w back takes m v))

  -- Let the package's `ldelim` put the length of an encoding in front of it, and let its reads
  -- take back what was written without looking further. A ProtocolV3Message within the ranges of
  -- its fields, whose encoding is shorter than 4 GiB, is decoded from what `encodeDelimited` makes
  -- of it whatever bytes follow, and the reader then stands at those bytes: `decodeDelimited`
  -- reads neither less nor more than the one message.
  pub v3_decode_delimited-encode_delimited :
      (m : ProtocolV3Message) (t : Bytes)
      → IsV3 m
      → IsUint32 (length (V3.encode w m))
      → V3.decode_delimited w (V3.encode_delimited w ldelim m ++ t) ≡ ok (m, t)
  unfolding V3.decode_delimited V3.encode_delimited V3.decode
  v3_decode_delimited-encode_delimited m t v h = rw (delimits (V3.encode w m)) (
      decode_prefixed_lem w (V3.read_field w) takes here
        (λ tag s n n' r. Leaves-bound _ _ (v3_read_field w takes tag s n) n' r)
        (v3_read_field-Extends w here) (V3.encode w m) t V3.new m back h
        (v3_decode-encode w back takes m v))
