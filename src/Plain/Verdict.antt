-- ===== src/Plain/Verdict.antt =====
-- What `verify` says of a ProtocolV3Message that `fromObject` has made
-- (lib/aws-iot-tunnel/protobuf-messages.js).
use sshclient_sftp_wasm.Base.{
  ℕ, ◌<◌, ◌≤◌, ◌≡◌, refl, ap, ◌⊎◌, inl, inr, pos, negsuc, ltb, Bool-cases, ltb→lt, ltb→le, Option,
  none, some, Option-cases, Text, codes, List, arith, subst,
}
use sshclient_sftp_wasm.Plain.Value.{
  integer, fraction, infinity, nan, Value, undefined, null, boolean, number, string, buffer, array,
  object, nat, Plain, plain, no_properties,
}
use sshclient_sftp_wasm.Plain.Util.{Util, IsUtil}
use sshclient_sftp_wasm.Plain.Fields.{
  bool_field, case_of, default_case, type_field, int32_field, uint32_field, payload_field,
  text_field, texts_field,
}
use sshclient_sftp_wasm.Plain.Checks.{check_type}
use sshclient_sftp_wasm.Plain.V3
use sshclient_sftp_wasm.Plain.Verified.{v3_verify-from_object}

abbrev pub outside_enum : Text
outside_enum = codes "type: enum value expected"

-- The verdict on a message whose type this is, in an enum of `n` values numbered from 0: there is
-- none if it has no type or one of the enum, and one if its type is any other number. A type that is
-- not a number has no verdict, since there is no such message.
abbrev pub IsVerdict : ℕ → Value → Option Text → Type 0
IsVerdict n undefined r = r ≡ none
IsVerdict n (number (integer (pos i))) r =
    ((i < n) × (r ≡ none)) ⊎ ((n ≤ i) × (r ≡ some outside_enum))
IsVerdict n (number x) r = r ≡ some outside_enum
IsVerdict n v r = ⊥

-- A number, or no value.
abbrev IsNumeric : Value → Type 0
IsNumeric undefined = Unit
IsNumeric (number x) = Unit
IsNumeric v = ⊥

default_case-IsNumeric : (v : Value) → IsNumeric (default_case v)
default_case-IsNumeric (number x) = tt
default_case-IsNumeric undefined = tt
default_case-IsNumeric null = tt
default_case-IsNumeric (boolean b) = tt
default_case-IsNumeric (string s) = tt
default_case-IsNumeric (buffer s) = tt
default_case-IsNumeric (array vs) = tt
default_case-IsNumeric object = tt

type_field-IsNumeric : (names : List Text) (v : Value) → IsNumeric (type_field names v)
unfolding type_field
type_field-IsNumeric names v = go (case_of 0 names v)
  where
    go : (r : Option ℕ) → IsNumeric (elim r [ some i ↦ nat i | none ↦ default_case v ])
    go none = default_case-IsNumeric v
    go (some i) = tt

check_type-IsVerdict : (n : ℕ) (v : Value) → IsNumeric v → IsVerdict n v (check_type n v)
unfolding check_type
check_type-IsVerdict n undefined h = refl
check_type-IsVerdict n (number (integer (pos i))) h = elim (Bool-cases (ltb i n)) [
  | inl e ↦ inl (ltb→lt i n e, rw e refl)
  | inr e ↦ inr (ltb→le i n e, rw e refl)
]
check_type-IsVerdict n (number (integer (negsuc i))) h = refl
check_type-IsVerdict n (number (fraction z s)) h = refl
check_type-IsVerdict n (number (infinity b)) h = refl
check_type-IsVerdict n (number nan) h = refl
check_type-IsVerdict n null h = absurd h
check_type-IsVerdict n (boolean b) h = absurd h
check_type-IsVerdict n (string s) h = absurd h
check_type-IsVerdict n (buffer s) h = absurd h
check_type-IsVerdict n (array vs) h = absurd h
check_type-IsVerdict n object h = absurd h

module _ (u : Util) where
  type_of-from_object :
      (o : Plain) {m : Plain}
      → V3.from_object u (plain o) ≡ some m
      → type_field V3.type_names o.type ≡ m.type
  unfolding V3.from_object
  type_of-from_object o {m} h = elim (Option-cases (payload_field u o.payload)) [
    | inl hp ↦ ground arith
    | inr (p, hp) ↦ elim (Option-cases (texts_field u o.available_service_ids)) [
      | inl hl ↦ ground arith
      | inr (l, hl) ↦
          let made : record no_properties {
            type = type_field V3.type_names o.type;
            stream_id = int32_field u o.stream_id;
            ignorable = bool_field o.ignorable;
            payload = p;
            service_id = text_field u o.service_id;
            available_service_ids = l;
            connection_id = uint32_field u o.connection_id;
          }
              ≡ m =
            ground arith in
          ap (λ r. r.type) made
    ]
  ]

  -- With the `isInteger` and `isString` of protobufjs as documented: a ProtocolV3Message that
  -- `fromObject` makes of any plain object, where it does not throw, has fields of the types that
  -- `verify` asks for, and its type is a number if it has one: `verify` complains of it exactly if
  -- its type is a number other than 0 to 7, and of nothing but that.
  pub v3_verify-IsVerdict :
      (laws : IsUtil u) (o : Plain) {m : Plain}
      → V3.from_object u (plain o) ≡ some m
      → IsVerdict 8 m.type (V3.verify u (plain m))
  v3_verify-IsVerdict laws o {m} h = rw (v3_verify-from_object u laws o h) (
      check_type-IsVerdict 8 m.type
        (subst IsNumeric (type_of-from_object o h) (type_field-IsNumeric V3.type_names o.type)))
