-- ===== src/Legacy/Streams.antt =====
-- Delimited messages of lib/tunnel.js in one reader.
use sshclient_sftp_wasm.Base.{ℕ, ◌%◌, ◌≡◌, ◌++◌, length, arith, Bytes}
use sshclient_sftp_wasm.Wire.{Wire, ReadsBack, Consumes, Extends, IsLocal, IsUint32}
use sshclient_sftp_wasm.Messages.Fields.{ok}
use sshclient_sftp_wasm.Messages.Delimited.{Delimits, decode_prefixed_lem}
use sshclient_sftp_wasm.Messages.Streams.{Extends-skip}
use sshclient_sftp_wasm.Messages.Total.{Leaves-bound}
use sshclient_sftp_wasm.Legacy.RoundTrip.{IsInRange, tunnel_decode-encode, tunnel_read_field}
use sshclient_sftp_wasm.Legacy.TunnelMessage.{
  TunnelMessage, new, encode, read_field, decode, encode_delimited, decode_delimited,
}

module _ (w : Wire) (here : IsLocal w) where
  tunnel_read_field-Extends :
      (tag : ℕ) (s t : Bytes) (m : TunnelMessage)
      → Extends t (read_field w tag s m) (read_field w tag (s ++ t) m)
  unfolding read_field
  tunnel_read_field-Extends tag s t m = ground (
    arith,
    here.int32_extends s t,
    here.bool_extends s t,
    here.bytes_extends s t,
    here.string_extends s t,
    Extends-skip t m (w.skip_type (tag % 8) s) (w.skip_type (tag % 8) (s ++ t))
        (here.skip_extends (tag % 8) s t),
  )

module _ (w : Wire) (back : ReadsBack w) (takes : Consumes w) (here : IsLocal w)
    (ldelim : Bytes → Bytes) (delimits : Delimits w ldelim) where
  pub tunnel_decode_delimited-encode_delimited :
      (m : TunnelMessage) (t : Bytes)
      → IsInRange m
      → IsUint32 (length (encode w m))
      → decode_delimited w (encode_delimited w ldelim m ++ t) ≡ ok (m, t)
  unfolding decode_delimited encode_delimited decode
  tunnel_decode_delimited-encode_delimited m t v h = rw (delimits (encode w m)) (
      decode_prefixed_lem w (read_field w) takes here
        (λ tag s n n' r. Leaves-bound _ _ (tunnel_read_field w takes tag s n) n' r)
        (tunnel_read_field-Extends w here) (encode w m) t new m back h
        (tunnel_decode-encode w takes back m v))
