-- ===== src/Plain/Verified.antt =====
-- What `fromObject` makes passes `verify`, but for the type
-- (lib/aws-iot-tunnel/protobuf-messages.js and lib/tunnel.js).
use sshclient_sftp_wasm.Base.{
  ◌≡◌, refl, true, Option, none, some, Option-cases, Bool-cases, inl, inr, arith, Text, List, [],
  ◌∷◌, All, codes, subst,
}
use sshclient_sftp_wasm.Plain.Value.{
  Value, undefined, null, boolean, number, string, buffer, array, object, Values, nil, cons, Plain,
  plain, no_properties, is_nullish, is_true,
}
use sshclient_sftp_wasm.Plain.Util.{Util, IsUtil}
use sshclient_sftp_wasm.Plain.Fields.{
  bool_field, type_field, int32_field, uint32_field, payload_field, text_field, texts_field,
  texts_of, array_texts,
}
use sshclient_sftp_wasm.Plain.Checks.{
  first_complaint, check_type, check_integer, check_ignorable, check_payload, check_service_id,
  check_available_service_ids, all_strings,
}
use sshclient_sftp_wasm.Plain.V1
use sshclient_sftp_wasm.Plain.V2
use sshclient_sftp_wasm.Plain.V3
use sshclient_sftp_wasm.Plain.Tunnel

check_ignorable-bool_field : (v : Value) → check_ignorable (bool_field v) ≡ none
unfolding check_ignorable bool_field
check_ignorable-bool_field v = elim (Bool-cases (is_nullish v)) [
  | inl e ↦ rw e refl
  | inr e ↦ rw e refl
]

passes : (r : List (Option Text)) → All (λ c. c ≡ none) r → first_complaint r ≡ none
unfolding first_complaint
passes [] all = refl
passes (none ∷ r) all = passes r all.1
passes (some s ∷ r) all = let e : some s ≡ none = all.0 in cc

-- Where the other checks pass, the first decides.
first_complaint-cons :
    (c : Option Text) (r : List (Option Text)) → All (λ d. d ≡ none) r → first_complaint (c ∷ r) ≡ c
unfolding first_complaint
first_complaint-cons none r all = passes r all
first_complaint-cons (some s) r all = refl

module _ (u : Util) (laws : IsUtil u) where
  check_integer-int32_field :
      (complaint : Text) (v : Value) → check_integer u complaint (int32_field u v) ≡ none
  unfolding check_integer int32_field
  check_integer-int32_field complaint v = elim (Bool-cases (is_nullish v)) [
    | inl e ↦ rw e refl
    | inr e ↦ rw (e, laws.integers) refl
  ]

  check_integer-uint32_field :
      (complaint : Text) (v : Value) → check_integer u complaint (uint32_field u v) ≡ none
  unfolding check_integer uint32_field
  check_integer-uint32_field complaint v = elim (Bool-cases (is_nullish v)) [
    | inl e ↦ rw e refl
    | inr e ↦ rw (e, laws.integers) refl
  ]

  check_service_id-text_field : (v : Value) → check_service_id u (text_field u v) ≡ none
  unfolding check_service_id text_field
  check_service_id-text_field v = elim (Bool-cases (is_nullish v)) [
    | inl e ↦ rw e refl
    | inr e ↦ rw (e, laws.texts) refl
  ]

  check_payload-payload_field :
      (v p : Value) → payload_field u v ≡ some p → check_payload u p ≡ none
  unfolding check_payload payload_field
  check_payload-payload_field (string s) p h = elim (Option-cases (u.base64_decode s)) [
    | inl e ↦ ground arith
    | inr (b, e) ↦ ground arith
  ]
  check_payload-payload_field (buffer b) p h = ground arith
  check_payload-payload_field (array a) p h = ground arith
  check_payload-payload_field undefined p h = ground arith
  check_payload-payload_field null p h = ground arith
  check_payload-payload_field (boolean b) p h = ground arith
  check_payload-payload_field (number x) p h = ground arith
  check_payload-payload_field object p h = ground arith

  all_strings-texts_of : (vs : Values) → all_strings u (texts_of u vs) ≡ true
  unfolding all_strings texts_of
  all_strings-texts_of nil = refl
  all_strings-texts_of (cons v vs) = rw (laws.texts, all_strings-texts_of vs) refl

  check_array : (v p : Value) → array_texts u v ≡ some p → check_available_service_ids u p ≡ none
  unfolding check_available_service_ids
  check_array (array vs) p h =
      let same : array (texts_of u vs) ≡ p = cc in rw (← same, all_strings-texts_of vs) refl
  check_array undefined p h = cc
  check_array null p h = cc
  check_array (boolean b) p h = cc
  check_array (number x) p h = cc
  check_array (string s) p h = cc
  check_array (buffer b) p h = cc
  check_array object p h = cc

  check_available_service_ids-texts_field :
      (v p : Value) → texts_field u v ≡ some p → check_available_service_ids u p ≡ none
  unfolding check_available_service_ids texts_field
  check_available_service_ids-texts_field v p h = elim (Bool-cases (is_true v)) [
    | inr e ↦ let same : undefined ≡ p = ground arith in rw (← same) refl
    | inl e ↦ check_array v p (rw e at h)
  ]

  pub v1_verify-from_object :
      (o : Plain) {m : Plain}
      → V1.from_object u (plain o) ≡ some m
      → V1.verify u (plain m) ≡ check_type 4 m.type
  unfolding V1.from_object V1.verify
  v1_verify-from_object o {m} h = elim (Option-cases (payload_field u o.payload)) [
    | inl hp ↦ ground arith
    | inr (p, hp) ↦
        let made : record no_properties {
          type = type_field V1.type_names o.type;
          stream_id = int32_field u o.stream_id;
          ignorable = bool_field o.ignorable;
          payload = p;
        }
            ≡ m =
          ground arith in
        subst (λ r. V1.verify u (plain r) ≡ check_type 4 r.type) made
          (first_complaint-cons _ _ (
            check_integer-int32_field (codes "streamId: integer expected") o.stream_id,
            (
              check_ignorable-bool_field o.ignorable,
              (check_payload-payload_field o.payload p hp, tt),
            ),
          ))
  ]

  pub v2_verify-from_object :
      (o : Plain) {m : Plain}
      → V2.from_object u (plain o) ≡ some m
      → V2.verify u (plain m) ≡ check_type 6 m.type
  unfolding V2.from_object V2.verify
  v2_verify-from_object o {m} h = elim (Option-cases (payload_field u o.payload)) [
    | inl hp ↦ ground arith
    | inr (p, hp) ↦ elim (Option-cases (texts_field u o.available_service_ids)) [
      | inl hl ↦ ground arith
      | inr (l, hl) ↦
          let made : record no_properties {
            type = type_field V2.type_names o.type;
            stream_id = int32_field u o.stream_id;
            ignorable = bool_field o.ignorable;
            payload = p;
            service_id = text_field u o.service_id;
            available_service_ids = l;
          }
              ≡ m =
            ground arith in
          subst (λ r. V2.verify u (plain r) ≡ check_type 6 r.type) made
            (first_complaint-cons _ _ (
              check_integer-int32_field (codes "streamId: integer expected") o.stream_id,
              (
                check_ignorable-bool_field o.ignorable,
                (
                  check_payload-payload_field o.payload p hp,
                  (
                    check_service_id-text_field o.service_id,
                    (check_available_service_ids-texts_field o.available_service_ids l hl, tt),
                  ),
                ),
              ),
            ))
    ]
  ]

  -- A ProtocolV3Message that `fromObject` makes of any plain object, where it does not throw, has
  -- fields of the types that `verify` asks for: `verify` complains of it exactly if its type is a
  -- number outside the enum, and of nothing else.
  pub v3_verify-from_object :
      (o : Plain) {m : Plain}
      → V3.from_object u (plain o) ≡ some m
      → V3.verify u (plain m) ≡ check_type 8 m.type
  unfolding V3.from_object V3.verify
  v3_verify-from_object o {m} h = elim (Option-cases (payload_field u o.payload)) [
    | inl hp ↦ ground arith
    | inr (p, hp) ↦ elim (Option-cases (texts_field u o.available_service_ids)) [
      | inl hl ↦ ground arith
      | inr (l, hl) ↦
          let made : record no_properties {
            type = type_field V3.type_names o.type;
            stream_id = int32_field u o.stream_id;
            ignorable = bool_field o.ignorable;
            payload = p;
            service_id = text_field u o.service_id;
            available_service_ids = l;
            connection_id = uint32_field u o.connection_id;
          }
              ≡ m =
            ground arith in
          subst (λ r. V3.verify u (plain r) ≡ check_type 8 r.type) made
            (first_complaint-cons _ _ (
              check_integer-int32_field (codes "streamId: integer expected") o.stream_id,
              (
                check_ignorable-bool_field o.ignorable,
                (
                  check_payload-payload_field o.payload p hp,
                  (
                    check_service_id-text_field o.service_id,
                    (
                      check_available_service_ids-texts_field o.available_service_ids l hl,
                      (
                        check_integer-uint32_field (codes "connectionId: integer expected")
                            o.connection_id,
                        tt,
                      ),
                    ),
                  ),
                ),
              ),
            ))
    ]
  ]

  pub tunnel_verify-from_object :
      (o : Plain) {m : Plain}
      → Tunnel.from_object u (plain o) ≡ some m
      → Tunnel.verify u (plain m) ≡ check_type 8 m.type
  unfolding Tunnel.from_object Tunnel.verify
  tunnel_verify-from_object o {m} h = elim (Option-cases (payload_field u o.payload)) [
    | inl hp ↦ ground arith
    | inr (p, hp) ↦ elim (Option-cases (texts_field u o.available_service_ids)) [
      | inl hl ↦ ground arith
      | inr (l, hl) ↦
          let made : record no_properties {
            type = type_field Tunnel.type_names o.type;
            stream_id = int32_field u o.stream_id;
            ignorable = bool_field o.ignorable;
            payload = p;
            service_id = text_field u o.service_id;
            available_service_ids = l;
            connection_id = int32_field u o.connection_id;
          }
              ≡ m =
            ground arith in
          subst (λ r. Tunnel.verify u (plain r) ≡ check_type 8 r.type) made
            (first_complaint-cons _ _ (
              check_integer-int32_field (codes "streamId: integer expected") o.stream_id,
              (
                check_integer-int32_field (codes "connectionId: integer expected") o.connection_id,
                (
                  check_ignorable-bool_field o.ignorable,
                  (
                    check_payload-payload_field o.payload p hp,
                    (
                      check_service_id-text_field o.service_id,
                      (check_available_service_ids-texts_field o.available_service_ids l hl, tt),
                    ),
                  ),
                ),
              ),
            ))
    ]
  ]
