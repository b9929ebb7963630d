-- ===== src/Plain/RoundTrip.antt =====
-- A plain object that `toObject` or `toJSON` makes of a message is converted back by `fromObject`
-- (lib/aws-iot-tunnel/protobuf-messages.js and lib/tunnel.js).
use sshclient_sftp_wasm.Base.{
  ◌^◌, ◌<◌, ◌≡◌, refl, IsInt32, some, List, [], ◌∷◌, codes, text_eq, Text,
}
use sshclient_sftp_wasm.Messages.Fields.{Own}
use sshclient_sftp_wasm.Messages.V1.{ProtocolV1Message}
use sshclient_sftp_wasm.Messages.V2.{ProtocolV2Message}
use sshclient_sftp_wasm.Messages.V3.{ProtocolV3Message}
use sshclient_sftp_wasm.Legacy.TunnelMessage.{TunnelMessage}
use sshclient_sftp_wasm.Plain.Value.{plain}
use sshclient_sftp_wasm.Plain.Util.{Util, IsUtil, Options}
use sshclient_sftp_wasm.Plain.Back.{
  kept, IsBytes, type_back, bool_back, int32_back, uint32_back, text_back, texts_back, payload_back,
  int32_own, text_own, payload_own, bool_own,
}
use sshclient_sftp_wasm.Plain.Names.{AreDistinct}
use sshclient_sftp_wasm.Plain.V1
use sshclient_sftp_wasm.Plain.V2
use sshclient_sftp_wasm.Plain.V3
use sshclient_sftp_wasm.Plain.Tunnel

abbrev v1_names : List Text
v1_names = codes "DATA" ∷ codes "STREAM_START" ∷ codes "STREAM_END" ∷ []

v1_names-AreDistinct : AreDistinct (codes "UNKNOWN" ∷ v1_names)
unfolding text_eq
v1_names-AreDistinct = ((refl, (refl, (refl, tt))), ((refl, (refl, tt)), ((refl, tt), (tt, tt))))

abbrev v2_names : List Text
v2_names =
    codes "DATA"
    ∷ codes "STREAM_START"
    ∷ codes "STREAM_RESET"
    ∷ codes "SESSION_RESET"
    ∷ codes "SERVICE_IDS"
    ∷ []

v2_names-AreDistinct : AreDistinct (codes "UNKNOWN" ∷ v2_names)
unfolding text_eq
v2_names-AreDistinct = (
  (refl, (refl, (refl, (refl, (refl, tt))))),
  (
    (refl, (refl, (refl, (refl, tt)))),
    ((refl, (refl, (refl, tt))), ((refl, (refl, tt)), ((refl, tt), (tt, tt)))),
  ),
)

abbrev v3_names : List Text
v3_names =
    codes "DATA"
    ∷ codes "STREAM_START"
    ∷ codes "STREAM_RESET"
    ∷ codes "SESSION_RESET"
    ∷ codes "SERVICE_IDS"
    ∷ codes "CONNECTION_START"
    ∷ codes "CONNECTION_RESET"
    ∷ []

v3_names-AreDistinct : AreDistinct (codes "UNKNOWN" ∷ v3_names)
unfolding text_eq
v3_names-AreDistinct = (
  (refl, (refl, (refl, (refl, (refl, (refl, (refl, tt))))))),
  (
    (refl, (refl, (refl, (refl, (refl, (refl, tt)))))),
    (
      (refl, (refl, (refl, (refl, (refl, tt))))),
      (
        (refl, (refl, (refl, (refl, tt)))),
        ((refl, (refl, (refl, tt))), ((refl, (refl, tt)), ((refl, tt), (tt, tt)))),
      ),
    ),
  ),
)

module _ (u : Util) (laws : IsUtil u) (o : Options) where
  pub v1_from_object-to_object :
      (m : ProtocolV1Message)
      → Own IsInt32 m.stream_id
      → Own IsBytes m.payload
      → V1.from_object u (plain (V1.to_object u o m)) ≡ some (V1.to_object u (kept o) m)
  unfolding V1.from_object V1.to_object
  v1_from_object-to_object m hs hp =
      rw
        (
          type_back o v1_names m.type v1_names-AreDistinct,
          int32_back o u m.stream_id hs,
          bool_back o m.ignorable,
          payload_back o u m.payload laws hp,
        )
        refl

  pub v2_from_object-to_object :
      (m : ProtocolV2Message)
      → Own IsInt32 m.stream_id
      → Own IsBytes m.payload
      → V2.from_object u (plain (V2.to_object u o m)) ≡ some (V2.to_object u (kept o) m)
  unfolding V2.from_object V2.to_object
  v2_from_object-to_object m hs hp =
      rw
        (
          type_back o v2_names m.type v2_names-AreDistinct,
          int32_back o u m.stream_id hs,
          bool_back o m.ignorable,
          payload_back o u m.payload laws hp,
          text_back o u m.service_id,
          texts_back o u m.available_service_ids,
        )
        refl

  -- Let a ProtocolV3Message have a signed 32-bit stream id, a payload of bytes and an unsigned
  -- 32-bit connection id. `fromObject` on the plain object that `toObject` makes of it with any
  -- options, or `toJSON` with the package's, does not throw. It gives the fields that `toObject`
  -- gives with numbers for enums and with a buffer where the bytes were shown as text: the names of
  -- types, base64 and the defaults asked for are all converted back.
  pub v3_from_object-to_object :
      (m : ProtocolV3Message)
      → Own IsInt32 m.stream_id
      → Own IsBytes m.payload
      → Own (λ n. n < 2 ^ 32) m.connection_id
      → V3.from_object u (plain (V3.to_object u o m)) ≡ some (V3.to_object u (kept o) m)
  unfolding V3.from_object V3.to_object
  v3_from_object-to_object m hs hp hc =
      rw
        (
          type_back o v3_names m.type v3_names-AreDistinct,
          int32_back o u m.stream_id hs,
          bool_back o m.ignorable,
          payload_back o u m.payload laws hp,
          text_back o u m.service_id,
          texts_back o u m.available_service_ids,
          uint32_back o u m.connection_id hc,
        )
        refl

  pub tunnel_from_object-to_object :
      (m : TunnelMessage)
      → Own IsInt32 m.stream_id
      → Own IsInt32 m.connection_id
      → Own IsBytes m.payload
      → Tunnel.from_object u (plain (Tunnel.to_object u o m)) ≡ some (Tunnel.to_object u (kept o) m)
  unfolding Tunnel.from_object Tunnel.to_object
  tunnel_from_object-to_object m hs hc hp =
      rw
        (
          type_back o v3_names m.type v3_names-AreDistinct,
          int32_own u m.stream_id hs,
          int32_own u m.connection_id hc,
          bool_own m.ignorable,
          payload_own u o m.payload laws hp,
          text_own u m.service_id,
          texts_back o u m.available_service_ids,
        )
        refl
