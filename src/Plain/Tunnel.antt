-- ===== src/Plain/Tunnel.antt =====
-- Plain objects and TunnelMessage of lib/tunnel.js.
use mathlib.Core.Option
use sshclient_sftp_wasm.Base.{Option, none, some, List, [], ◌∷◌, ◌++◌, codes, Text}
use sshclient_sftp_wasm.Legacy.TunnelMessage.{TunnelMessage}
use sshclient_sftp_wasm.Plain.Value.{
  boolean, number, string, Plain, no_properties, Input, nothing, primitive, plain, instance_of,
  integer,
}
use sshclient_sftp_wasm.Plain.Util.{Util, Options}
use sshclient_sftp_wasm.Plain.Fields.{
  ◌>>=◌, type_field, bool_field, int32_field, payload_field, text_field, texts_field, type_view,
  type_default, payload_view, view, own, texts_view,
}
use sshclient_sftp_wasm.Plain.Checks.{
  first_complaint, check_type, check_integer, check_ignorable, check_payload, check_service_id,
  check_available_service_ids,
}

-- `TunnelMessage.TunnelMessageType`, the names in the order of their numbers.
abbrev pub type_names : List Text
type_names =
    codes "UNKNOWN"
    ∷ codes "DATA"
    ∷ codes "STREAM_START"
    ∷ codes "STREAM_RESET"
    ∷ codes "SESSION_RESET"
    ∷ codes "SERVICE_IDS"
    ∷ codes "CONNECTION_START"
    ∷ codes "CONNECTION_RESET"
    ∷ []

module _ (u : Util) where
  -- The checks of an object, in the code's order.
  complaints : Plain → List (Option Text)
  complaints m =
      check_type 8 m.type
      ∷ check_integer u (codes "streamId: integer expected") m.stream_id
      ∷ check_integer u (codes "connectionId: integer expected") m.connection_id
      ∷ check_ignorable m.ignorable
      ∷ check_payload u m.payload
      ∷ check_service_id u m.service_id
      ∷ check_available_service_ids u m.available_service_ids
      ∷ []

  unfoldable pub verify : Input → Option Text
  unfolding complaints check_type check_integer check_ignorable check_payload check_service_id
      check_available_service_ids first_complaint
  verify nothing = some (codes "object expected")
  verify primitive = some (codes "object expected")
  verify (plain m) = first_complaint (complaints m)
  verify (instance_of m) = first_complaint (complaints m)

  -- A new message with the fields of the object, converted.
  fields_from : Plain → Option Plain
  fields_from o = do
    p ← payload_field u o.payload
    ids ← texts_field u o.available_service_ids
    some (record no_properties {
      type = type_field type_names o.type;
      stream_id = int32_field u o.stream_id;
      connection_id = int32_field u o.connection_id;
      ignorable = bool_field o.ignorable;
      payload = p;
      service_id = text_field u o.service_id;
      available_service_ids = ids;
    })

  -- A primitive value has none of the fields; the fields of null cannot be read.
  unfoldable pub from_object : Input → Option Plain
  unfolding fields_from type_field int32_field bool_field payload_field text_field texts_field
  from_object nothing = none
  from_object primitive = some no_properties
  from_object (plain o) = fields_from o
  from_object (instance_of m) = some m

  -- An optional field has no default in the object, unlike `type`. The options' names of the fields that are set,
  -- `_streamId` and the like, are no keys that are read.
  unfoldable pub to_object : Options → TunnelMessage → Plain
  unfolding type_view payload_view texts_view
  to_object o m = record {
    type = view o (type_default o) (type_view o type_names) m.type;
    stream_id = own (λ z. number (integer z)) m.stream_id;
    ignorable = own boolean m.ignorable;
    payload = own (payload_view o u) m.payload;
    service_id = own string m.service_id;
    available_service_ids = texts_view o m.available_service_ids;
    connection_id = own (λ z. number (integer z)) m.connection_id;
  }

  -- `this.constructor.toObject(this, util.toJSONOptions)`
  unfoldable pub to_json : TunnelMessage → Plain
  unfolding to_object
  to_json m = to_object u.to_json_options m

-- `getTypeUrl(typeUrlPrefix)`
unfoldable pub get_type_url : Option Text → Text
get_type_url prefix =
    Option.get_or prefix (codes "type.googleapis.com") ++ codes "/tunnel.TunnelMessage"
