-- ===== src/Tests/Messages.antt =====
-- Messages of lib/aws-iot-tunnel/protobuf-messages.js over the wire format of FixedWire.
use sshclient_sftp_wasm.Base.{◌≡◌, ◌≢◌, refl, pos, negsuc, true, some, [], ◌∷◌, arith}
use sshclient_sftp_wasm.FixedWire.{fixed, fixed-ReadsBack, fixed-Consumes}
use sshclient_sftp_wasm.Messages.Fields.{ok, thrown, stuck}
use sshclient_sftp_wasm.Messages.V1
use sshclient_sftp_wasm.Messages.V1.{ProtocolV1Message}
use sshclient_sftp_wasm.Messages.V2
use sshclient_sftp_wasm.Messages.V2.{ProtocolV2Message}
use sshclient_sftp_wasm.Messages.V3
use sshclient_sftp_wasm.Messages.V3.{ProtocolV3Message}
use sshclient_sftp_wasm.Messages.RoundTrip.{IsV1, IsV2, IsV3, v3_decode-encode}
use sshclient_sftp_wasm.Messages.Skips.{v2_of_v3, v2_decode-v3_encode}
use sshclient_sftp_wasm.Messages.Total.{decode-ne-stuck}

abbrev v1_sample : ProtocolV1Message
v1_sample = record V1.new { type = some (pos 1); payload = some (7 ∷ 8 ∷ []) }

abbrev v2_sample : ProtocolV2Message
v2_sample = record V2.new {
  type = some (pos 5);
  stream_id = some (negsuc 2);
  available_service_ids = (83 ∷ 83 ∷ 72 ∷ []) ∷ (83 ∷ []) ∷ [];
}

abbrev v3_sample : ProtocolV3Message
v3_sample = record V3.new {
  type = some (pos 1);
  ignorable = some true;
  payload = some (7 ∷ []);
  service_id = some (83 ∷ []);
  connection_id = some 4;
}

v1_sample-IsV1 : IsV1 v1_sample
v1_sample-IsV1 = record { type = omega arith; stream_id = tt; payload = omega arith }

v2_sample-IsV2 : IsV2 v2_sample
v2_sample-IsV2 = record {
  type = omega arith;
  stream_id = omega arith;
  payload = tt;
  service_id = tt;
  available_service_ids = omega arith;
}

v3_sample-IsV3 : IsV3 v3_sample
v3_sample-IsV3 = record {
  type = omega arith;
  stream_id = tt;
  payload = omega arith;
  service_id = omega arith;
  available_service_ids = tt;
  connection_id = omega arith;
}

v3_decode-encode_example : V3.decode fixed (V3.encode fixed v3_sample) ≡ ok v3_sample
v3_decode-encode_example =
    v3_decode-encode fixed fixed-ReadsBack fixed-Consumes v3_sample v3_sample-IsV3

v2_decode-v3_encode_example : V2.decode fixed (V3.encode fixed v3_sample) ≡ ok (v2_of_v3 v3_sample)
v2_decode-v3_encode_example =
    v2_decode-v3_encode fixed fixed-ReadsBack fixed-Consumes v3_sample v3_sample-IsV3

decode-ne-stuck_example :
    (V1.decode fixed (8 ∷ 255 ∷ []) ≢ stuck)
    × (V2.decode fixed (8 ∷ 255 ∷ []) ≢ stuck)
    × (V3.decode fixed (8 ∷ 255 ∷ []) ≢ stuck)
decode-ne-stuck_example = decode-ne-stuck fixed fixed-Consumes (8 ∷ 255 ∷ [])

-- A tag that is cut short makes the reader throw.
v1_decode_cut : V1.decode fixed (8 ∷ 0 ∷ []) ≡ thrown
unfolding V1.decode
v1_decode_cut = refl

-- Of a field that is written twice the last value counts.
v1_decode_twice :
    V1.decode fixed (16 ∷ 0 ∷ 0 ∷ 0 ∷ 0 ∷ 1 ∷ 0 ∷ 0 ∷ 0 ∷ 16 ∷ 0 ∷ 0 ∷ 0 ∷ 0 ∷ 2 ∷ 0 ∷ 0 ∷ 0 ∷ [])
    ≡ ok (record V1.new { stream_id = some (pos 2) })
unfolding V1.decode
v1_decode_twice = refl
