-- ===== src/Plain/V1.antt =====
-- Plain objects and ProtocolV1Message of lib/aws-iot-tunnel/protobuf-messages.js.
use mathlib.Core.Option
use sshclient_sftp_wasm.Base.{false, Option, none, some, List, [], ◌∷◌, ◌++◌, codes, Text}
use sshclient_sftp_wasm.Messages.V1.{ProtocolV1Message}
use sshclient_sftp_wasm.Plain.Value.{
  undefined, boolean, number, nat, Plain, no_properties, Input, nothing, primitive, plain,
  instance_of, integer,
}
use sshclient_sftp_wasm.Plain.Util.{Util, Options}
use sshclient_sftp_wasm.Plain.Fields.{
  ◌>>=◌, type_field, bool_field, int32_field, payload_field, type_view, type_default, payload_view,
  payload_default, view, texts_view,
}
use sshclient_sftp_wasm.Plain.Checks.{
  first_complaint, check_type, check_integer, check_ignorable, check_payload,
}

-- `ProtocolV1Message.Type`, the names in the order of their numbers.
abbrev pub type_names : List Text
type_names = codes "UNKNOWN" ∷ codes "DATA" ∷ codes "STREAM_START" ∷ codes "STREAM_END" ∷ []

module _ (u : Util) where
  -- The checks of an object, in the code's order.
  complaints : Plain → List (Option Text)
  complaints m =
      check_type 4 m.type
      ∷ check_integer u (codes "streamId: integer expected") m.stream_id
      ∷ check_ignorable m.ignorable
      ∷ check_payload u m.payload
      ∷ []

  unfoldable pub verify : Input → Option Text
  unfolding complaints check_type check_integer check_ignorable check_payload first_complaint
  verify nothing = some (codes "object expected")
  verify primitive = some (codes "object expected")
  verify (plain m) = first_complaint (complaints m)
  verify (instance_of m) = first_complaint (complaints m)

  -- A new message with the fields of the object, converted.
  fields_from : Plain → Option Plain
  fields_from o = do
    p ← payload_field u o.payload
    some (record no_properties {
      type = type_field type_names o.type;
      stream_id = int32_field u o.stream_id;
      ignorable = bool_field o.ignorable;
      payload = p;
    })

  -- A primitive value has none of the fields; the fields of null cannot be read.
  unfoldable pub from_object : Input → Option Plain
  unfolding fields_from type_field int32_field bool_field payload_field
  from_object nothing = none
  from_object primitive = some no_properties
  from_object (plain o) = fields_from o
  from_object (instance_of m) = some m

  unfoldable pub to_object : Options → ProtocolV1Message → Plain
  unfolding type_view payload_view payload_default texts_view
  to_object o m = record {
    type = view o (type_default o) (type_view o type_names) m.type;
    stream_id = view o (nat 0) (λ z. number (integer z)) m.stream_id;
    ignorable = view o (boolean false) boolean m.ignorable;
    payload = view o (payload_default o) (payload_view o u) m.payload;
    service_id = undefined;
    available_service_ids = undefined;
    connection_id = undefined;
  }

  -- `this.constructor.toObject(this, util.toJSONOptions)`
  unfoldable pub to_json : ProtocolV1Message → Plain
  unfolding to_object
  to_json m = to_object u.to_json_options m

-- `getTypeUrl(typeUrlPrefix)`
unfoldable pub get_type_url : Option Text → Text
get_type_url prefix =
    Option.get_or prefix (codes "type.googleapis.com")
    ++ codes "/com.amazonaws.iot.securedtunneling.ProtocolV1Message"
