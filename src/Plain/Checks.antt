-- ===== src/Plain/Checks.antt =====
-- The statements of `verify` that lib/aws-iot-tunnel/protobuf-messages.js and lib/tunnel.js repeat
-- for each field, in each message class. `none` is a field that is fine.
use sshclient_sftp_wasm.Base.{
  ℕ, pos, Bool, true, false, ◌&&◌, ◌||◌, Option, none, some, List, [], ◌∷◌, codes, ltb,
  if◌then◌else◌, Text,
}
use sshclient_sftp_wasm.Plain.Value.{
  integer, Value, boolean, number, string, buffer, array, Values, nil, cons, is_nullish, is_true,
}
use sshclient_sftp_wasm.Plain.Util.{Util}

-- `if (…) return "…"`, one after the other: the first complaint, or null.
unfoldable pub first_complaint : List (Option Text) → Option Text
first_complaint [] = none
first_complaint (none ∷ r) = first_complaint r
first_complaint (some s ∷ r) = some s

-- `if (message.x != null && message.hasOwnProperty("x")) if (!test(message.x)) return complaint`
abbrev pub check : (Value → Bool) → Text → Value → Option Text
check test complaint v = if is_nullish v then none else if test v then none else some complaint

-- `switch (message.type) { default: return …; case 0: … case count - 1: break; }`
abbrev is_enum_value : ℕ → Value → Bool
is_enum_value count (number (integer (pos n))) = ltb n count
is_enum_value count _ = false

unfoldable pub check_type : ℕ → Value → Option Text
check_type count v = check (is_enum_value count) (codes "type: enum value expected") v

abbrev is_boolean : Value → Bool
is_boolean (boolean b) = true
is_boolean _ = false

unfoldable pub check_ignorable : Value → Option Text
check_ignorable v = check is_boolean (codes "ignorable: boolean expected") v

-- `typeof message.payload.length === "number"`
abbrev has_length : Value → Bool
has_length (string s) = true
has_length (buffer b) = true
has_length (array a) = true
has_length _ = false

module _ (u : Util) where
  unfoldable pub check_integer : Text → Value → Option Text
  check_integer complaint v = check u.is_integer complaint v

  unfoldable pub check_payload : Value → Option Text
  check_payload v =
      check (λ p. (is_true p && has_length p) || u.is_string p) (codes "payload: buffer expected") v

  unfoldable pub check_service_id : Value → Option Text
  check_service_id v = check u.is_string (codes "serviceId: string expected") v

  -- The loop over the elements returns at the first that is no string.
  unfoldable pub all_strings : Values → Bool
  all_strings nil = true
  all_strings (cons v vs) = u.is_string v && all_strings vs

  abbrev check_elements : Value → Option Text
  check_elements (array vs) =
      if all_strings vs then none else some (codes "availableServiceIds: string[] expected")
  check_elements _ = some (codes "availableServiceIds: array expected")

  unfoldable pub check_available_service_ids : Value → Option Text
  unfolding all_strings
  check_available_service_ids v = if is_nullish v then none else check_elements v
