-- ===== src/Plain/Back.antt =====
-- For each field of a message: what `fromObject` makes of the view that `toObject` gives of it
-- (lib/aws-iot-tunnel/protobuf-messages.js and lib/tunnel.js).
use sshclient_sftp_wasm.Base.{
  ℕ, suc, ◌^◌, ◌<◌, ◌≡◌, refl, ap, ℤ, pos, IsInt32, Bool, true, false, ◌||◌, Option, none, some,
  List, [], ◌∷◌, All, Bool-cases, Option-cases, inl, inr, arith, codes, Bytes, Text,
}
use sshclient_sftp_wasm.Messages.Fields.{Own}
use sshclient_sftp_wasm.Plain.Value.{
  integer, cons, undefined, boolean, number, string, array, nat, strings, to_int32-integer,
  to_uint32-integer,
}
use sshclient_sftp_wasm.Plain.Util.{Util, IsUtil, Options, BytesAs, as_string, as_array, as_buffer}
use sshclient_sftp_wasm.Plain.Fields.{
  case_of, type_field, bool_field, int32_field, uint32_field, payload_field, text_field,
  texts_field, texts_of, name_of, type_view, type_default, payload_view, payload_default, view, own,
  texts_view, bytes_as, default_as,
}
use sshclient_sftp_wasm.Plain.Names.{AreDistinct, type_field-name_of, type_field-number}

abbrev pub IsBytes : Bytes → Type 0
IsBytes b = All (λ x. x < 256) b

abbrev kept_bytes : BytesAs → BytesAs
kept_bytes as_string = as_buffer
kept_bytes as_array = as_array
kept_bytes as_buffer = as_buffer

-- The options that leave a message as it is: numbers for enums, and no text for bytes.
abbrev pub kept : Options → Options
kept o = record o { enums_string = false; bytes = kept_bytes o.bytes }

case_of-undefined : (i : ℕ) (names : List Text) → case_of i names undefined ≡ none
unfolding case_of
case_of-undefined i [] = refl
case_of-undefined i (n ∷ names) = case_of-undefined (suc i) names

module _ (u : Util) where
  default_back :
      (k : BytesAs) → IsUtil u → payload_field u (default_as k) ≡ some (default_as (kept_bytes k))
  unfolding payload_field
  default_back as_string laws = rw laws.base64_empty refl
  default_back as_array laws = refl
  default_back as_buffer laws = refl

  bytes_back :
      (k : BytesAs) (b : Bytes)
      → IsUtil u
      → IsBytes b
      → payload_field u (bytes_as k u.base64_encode b)
        ≡ some (bytes_as (kept_bytes k) u.base64_encode b)
  unfolding payload_field
  bytes_back as_string b laws h = rw (laws.base64_back b h) refl
  bytes_back as_array b laws h = refl
  bytes_back as_buffer b laws h = refl

  -- The same for a field that has no default in the view.
  pub int32_own :
      (z : Option ℤ)
      → Own IsInt32 z
      → int32_field u (own (λ v. number (integer v)) z) ≡ own (λ v. number (integer v)) z
  unfolding int32_field
  int32_own none h = refl
  int32_own (some z) h = ap (λ v. number (integer v)) (to_int32-integer z h)

  pub text_own : (s : Option Text) → text_field u (own string s) ≡ own string s
  unfolding text_field
  text_own none = refl
  text_own (some s) = refl

  pub payload_own :
      (o : Options) (b : Option Bytes)
      → IsUtil u
      → Own IsBytes b
      → payload_field u (own (payload_view o u) b) ≡ some (own (payload_view (kept o) u) b)
  unfolding payload_field payload_view
  payload_own o none laws h = refl
  payload_own o (some b) laws h = bytes_back o.bytes b laws h

pub bool_own : (b : Option Bool) → bool_field (own boolean b) ≡ own boolean b
unfolding bool_field
bool_own none = refl
bool_own (some true) = refl
bool_own (some false) = refl

module _ (o : Options) where
  type_view_back :
      (names : List Text) (z : ℤ)
      → AreDistinct names
      → type_field names (type_view o names z) ≡ number (integer z)
  unfolding type_view
  type_view_back names z d = elim (Bool-cases o.enums_string) [
    | inr plain ↦ rw plain (type_field-number names (integer z))
    | inl named ↦ rw named (elim (Option-cases (name_of names z)) [
      | inl p ↦ rw p (type_field-number names (integer z))
      | inr (s, p) ↦ rw p (type_field-name_of names z s d p)
    ])
  ]

  pub type_back :
      (names : List Text) (t : Option ℤ)
      → AreDistinct (codes "UNKNOWN" ∷ names)
      → type_field
          (codes "UNKNOWN" ∷ names)
          (view o (type_default o) (type_view o (codes "UNKNOWN" ∷ names)) t)
        ≡ view (kept o) (type_default (kept o)) (type_view (kept o) (codes "UNKNOWN" ∷ names)) t
  unfolding type_view
  type_back names (some z) d = type_view_back (codes "UNKNOWN" ∷ names) z d
  type_back names none d = elim (Bool-cases o.defaults) [
    | inr bare ↦
        rw bare
          (unfold type_field in rw (case_of-undefined 0 (codes "UNKNOWN" ∷ names), type_field) refl)
    | inl full ↦ rw full (elim (Bool-cases o.enums_string) [
      | inl named ↦ rw named (
          type_field-name_of (codes "UNKNOWN" ∷ names) (pos 0) (codes "UNKNOWN") d
            (unfold name_of in refl))
      | inr plain ↦ rw plain (type_field-number (codes "UNKNOWN" ∷ names) (integer (pos 0)))
    ])
  ]

  pub bool_back :
      (b : Option Bool)
      → bool_field (view o (boolean false) boolean b) ≡ view (kept o) (boolean false) boolean b
  unfolding bool_field
  bool_back none = elim (Bool-cases o.defaults) [ inl e ↦ rw e refl | inr e ↦ rw e refl ]
  bool_back (some true) = refl
  bool_back (some false) = refl

  module _ (u : Util) where
    pub int32_back :
        (z : Option ℤ)
        → Own IsInt32 z
        → int32_field u (view o (nat 0) (λ v. number (integer v)) z)
          ≡ view (kept o) (nat 0) (λ v. number (integer v)) z
    unfolding int32_field
    int32_back none h = elim (Bool-cases o.defaults) [
      | inl e ↦ rw e (ap (λ v. number (integer v)) (to_int32-integer (pos 0) (omega arith)))
      | inr e ↦ rw e refl
    ]
    int32_back (some z) h = ap (λ v. number (integer v)) (to_int32-integer z h)

    pub uint32_back :
        (n : Option ℕ)
        → Own (λ v. v < 2 ^ 32) n
        → uint32_field u (view o (nat 0) nat n) ≡ view (kept o) (nat 0) nat n
    unfolding uint32_field
    uint32_back none h = elim (Bool-cases o.defaults) [
      | inl e ↦ rw e (ap nat (to_uint32-integer 0 (omega arith)))
      | inr e ↦ rw e refl
    ]
    uint32_back (some n) h = ap nat (to_uint32-integer n h)

    pub text_back :
        (s : Option Text)
        → text_field u (view o (string []) string s) ≡ view (kept o) (string []) string s
    unfolding text_field
    text_back none = elim (Bool-cases o.defaults) [ inl e ↦ rw e refl | inr e ↦ rw e refl ]
    text_back (some s) = refl

    texts_of-strings : (l : List Text) → texts_of u (strings l) ≡ strings l
    unfolding texts_of
    texts_of-strings [] = refl
    texts_of-strings (s ∷ r) = ap (cons (string s)) (texts_of-strings r)

    pub texts_back : (l : List Text) → texts_field u (texts_view o l) ≡ some (texts_view (kept o) l)
    unfolding texts_field texts_view texts_of
    texts_back [] = elim (Bool-cases (o.arrays || o.defaults)) [
      | inl e ↦ rw e refl
      | inr e ↦ rw e refl
    ]
    texts_back (s ∷ r) = ap (λ v. some (array (cons (string s) v))) (texts_of-strings r)

    pub payload_back :
        (b : Option Bytes)
        → IsUtil u
        → Own IsBytes b
        → payload_field u (view o (payload_default o) (payload_view o u) b)
          ≡ some (view (kept o) (payload_default (kept o)) (payload_view (kept o) u) b)
    unfolding payload_field payload_default payload_view
    payload_back none laws h = elim (Bool-cases o.defaults) [
      | inl e ↦ rw e (default_back u o.bytes laws)
      | inr e ↦ rw e refl
    ]
    payload_back (some b) laws h = bytes_back u o.bytes b laws h
