-- ===== src/Tests/Legacy.antt =====
-- TunnelMessage of lib/tunnel.js over the wire format of FixedWire.
use sshclient_sftp_wasm.Base.{◌≡◌, pos, negsuc, true, some, none, [], ◌∷◌, codes, arith}
use sshclient_sftp_wasm.FixedWire.{fixed, fixed-ReadsBack, fixed-Consumes}
use sshclient_sftp_wasm.Messages.Fields.{ok}
use sshclient_sftp_wasm.Legacy.TunnelMessage.{TunnelMessage, encode, decode}
use sshclient_sftp_wasm.Legacy.RoundTrip.{IsInRange, tunnel_decode-encode}

abbrev message : TunnelMessage
message = record {
  type = some (pos 1);
  stream_id = some (negsuc 4);
  connection_id = none;
  ignorable = some true;
  payload = some (1 ∷ 2 ∷ []);
  service_id = some (codes "SSH");
  available_service_ids = codes "a" ∷ codes "b" ∷ [];
}

message-IsInRange : IsInRange message
message-IsInRange = record {
  type = omega arith;
  stream_id = omega arith;
  connection_id = tt;
  payload = omega arith;
  service_id = omega arith;
  available_service_ids = omega arith;
}

tunnel_decode-encode_example : decode fixed (encode fixed message) ≡ ok message
tunnel_decode-encode_example =
    tunnel_decode-encode fixed fixed-Consumes fixed-ReadsBack message message-IsInRange
