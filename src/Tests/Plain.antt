-- ===== src/Tests/Plain.antt =====
-- Plain objects of the protocol's messages, with a base64 that leaves the bytes as they are.
use sshclient_sftp_wasm.Base.{
  ◌≡◌, refl, pos, negsuc, Bool, true, false, none, some, [], ◌∷◌, codes, arith, length, ◌++◌,
}
use sshclient_sftp_wasm.FixedWire.{fixed, fixed-ReadsBack, fixed-Consumes, fixed-IsLocal}
use sshclient_sftp_wasm.Messages.Fields.{ok}
use sshclient_sftp_wasm.Messages.RoundTrip.{IsV3}
use sshclient_sftp_wasm.Messages.Streams.{v3_decode_delimited-encode_delimited}
use sshclient_sftp_wasm.Messages.V3.{ProtocolV3Message}
use sshclient_sftp_wasm.Messages.V3 as Wired
use sshclient_sftp_wasm.Plain.Value.{
  Value, null, boolean, number, integer, nan, string, buffer, array, object, nil, cons, nat, Plain,
  no_properties, plain, nothing, primitive,
}
use sshclient_sftp_wasm.Plain.Util.{Util, IsUtil, Options, as_string}
use sshclient_sftp_wasm.Plain.Back.{kept}
use sshclient_sftp_wasm.Plain.V1
use sshclient_sftp_wasm.Plain.V3
use sshclient_sftp_wasm.Plain.RoundTrip.{v3_from_object-to_object}
use sshclient_sftp_wasm.Plain.Verdict.{IsVerdict, v3_verify-IsVerdict}

abbrev is_integer : Value → Bool
is_integer (number (integer z)) = true
is_integer _ = false

abbrev is_string : Value → Bool
is_string (string s) = true
is_string _ = false

-- The options of `toJSON` and a base64 that is the identity.
abbrev json : Options
json = record {
  defaults = false;
  arrays = false;
  oneofs = false;
  enums_string = true;
  bytes = as_string;
}

abbrev util : Util
util = record {
  is_integer = is_integer;
  is_string = is_string;
  base64_encode = λ b. b;
  base64_decode = λ s. some s;
  to_json_options = json;
  number_of = λ v. nan;
  text_of = λ v. codes "[object Object]";
}

util-IsUtil : IsUtil util
util-IsUtil = record {
  integers = λ z. refl;
  texts = λ s. refl;
  base64_empty = refl;
  base64_back = λ b h. refl;
}

abbrev v3_data : ProtocolV3Message
v3_data = record Wired.new {
  type = some (pos 1);
  stream_id = some (negsuc 2);
  payload = some (1 ∷ 2 ∷ []);
  available_service_ids = codes "SSH" ∷ [];
  connection_id = some 4000000000;
}

v3_data-IsV3 : IsV3 v3_data
v3_data-IsV3 = record {
  type = omega arith;
  stream_id = omega arith;
  payload = omega arith;
  service_id = tt;
  available_service_ids = omega arith;
  connection_id = omega arith;
}

-- The JSON view names the type.
json_view : V3.to_json util v3_data ≡ record no_properties {
  type = string (codes "DATA");
  stream_id = number (integer (negsuc 2));
  payload = string (1 ∷ 2 ∷ []);
  available_service_ids = array (cons (string (codes "SSH")) nil);
  connection_id = nat 4000000000;
}
unfolding V3.to_json
json_view = refl

v3_from_object-to_object_example :
    V3.from_object util (plain (V3.to_object util json v3_data))
    ≡ some (V3.to_object util (kept json) v3_data)
v3_from_object-to_object_example =
    v3_from_object-to_object util util-IsUtil json v3_data (omega arith) (omega arith) (omega arith)

-- A plain object none of whose values has the type of its field, but the two numbers.
abbrev loose : Plain
loose = record no_properties {
  type = number (integer (pos 9));
  stream_id = boolean true;
  ignorable = string (codes "no");
  payload = string (codes "ab");
  available_service_ids = array (cons object nil);
  connection_id = number (integer (negsuc 0));
}

abbrev loose_message : Plain
loose_message = record no_properties {
  type = number (integer (pos 9));
  stream_id = nat 1;
  ignorable = boolean true;
  payload = buffer (codes "ab");
  available_service_ids = array (cons (string (codes "[object Object]")) nil);
  connection_id = nat 4294967295;
}

loose_converted : V3.from_object util (plain loose) ≡ some loose_message
unfolding V3.from_object
loose_converted = refl

v3_verify-IsVerdict_example : IsVerdict 8 loose_message.type (V3.verify util (plain loose_message))
v3_verify-IsVerdict_example = v3_verify-IsVerdict util util-IsUtil loose loose_converted

-- Every complaint of `verify` but one.
complaints :
    (V1.verify util nothing ≡ some (codes "object expected"))
    × (V1.verify util (plain (record no_properties { type = nat 4 }))
        ≡ some (codes "type: enum value expected"))
    × (V3.verify util (plain (record no_properties { stream_id = string (codes "1") }))
        ≡ some (codes "streamId: integer expected"))
    × (V3.verify util (plain (record no_properties { ignorable = nat 1 }))
        ≡ some (codes "ignorable: boolean expected"))
    × (V3.verify util (plain (record no_properties { payload = nat 1 }))
        ≡ some (codes "payload: buffer expected"))
    × (V3.verify util (plain (record no_properties { service_id = nat 1 }))
        ≡ some (codes "serviceId: string expected"))
    × (V3.verify util (plain (record no_properties { available_service_ids = nat 1 }))
        ≡ some (codes "availableServiceIds: array expected"))
    × (V3.verify util
          (plain (record no_properties { available_service_ids = array (cons null nil) }))
        ≡ some (codes "availableServiceIds: string[] expected"))
unfolding V1.verify V3.verify
complaints = (refl, refl, refl, refl, refl, refl, refl, refl)

-- What `fromObject` throws at.
thrown :
    (V3.from_object util nothing ≡ none)
    × (V3.from_object util (plain (record no_properties { available_service_ids = nat 1 })) ≡ none)
    × (V3.from_object util primitive ≡ some no_properties)
unfolding V3.from_object
thrown = (refl, refl, refl)

v3_decode_delimited-encode_delimited_example :
    Wired.decode_delimited fixed
      (Wired.encode_delimited fixed (λ s. fixed.write_uint32 (length s) ++ s) v3_data ++ (9 ∷ []))
    ≡ ok (v3_data, 9 ∷ [])
v3_decode_delimited-encode_delimited_example =
    v3_decode_delimited-encode_delimited fixed fixed-ReadsBack fixed-Consumes fixed-IsLocal
      (λ s. fixed.write_uint32 (length s) ++ s) (λ s. refl) v3_data (9 ∷ []) v3_data-IsV3
      (unfold Wired.encode in omega arith)
