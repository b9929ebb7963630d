-- ===== src/Plain/Fields.antt =====
-- The statements of `fromObject` and `toObject` that lib/aws-iot-tunnel/protobuf-messages.js and
-- lib/tunnel.js repeat for each field, in each message class.
use sshclient_sftp_wasm.Base.{
  ℕ, zero, suc, ℤ, pos, negsuc, is_nat, Bool, true, false, ◌||◌, Option, none, some, List, [], ◌∷◌,
  text_eq, codes, if◌then◌else◌, Bytes, Text,
}
use sshclient_sftp_wasm.Plain.Value.{
  Number, integer, Value, undefined, boolean, number, string, buffer, array, Values, nil, cons, nat,
  strings, numbers, is_nullish, is_true, to_int32, to_uint32,
}
use sshclient_sftp_wasm.Plain.Util.{Util, Options, BytesAs, as_string, as_array, as_buffer}

-- A chain of steps of which one may throw: `none`.
infixl 5 ◌>>=◌
abbrev pub ◌>>=◌ {ℓ κ} : {A : Type ℓ} {B : Type κ} → Option A → (A → Option B) → Option B
none >>= f = none
some a >>= f = f a

-- `case "DATA": case 1:`, for the name and the number of an enum value.
is_case : ℕ → Text → Value → Bool
is_case i name (string s) = text_eq s name
is_case i name (number (integer z)) = is_nat i z
is_case i name _ = false

-- `switch (object.type)` over the enum values from number `i` on: the number of the case taken.
unfoldable pub case_of : ℕ → List Text → Value → Option ℕ
unfolding is_case text_eq
case_of i [] v = none
case_of i (name ∷ names) v = if is_case i name v then some i else case_of (suc i) names v

-- `default: if (typeof object.type === "number") message.type = object.type`
abbrev pub default_case : Value → Value
default_case (number x) = number x
default_case _ = undefined

unfoldable pub type_field : List Text → Value → Value
unfolding case_of
type_field names v = elim (case_of 0 names v) [ some i ↦ nat i | none ↦ default_case v ]

-- `Boolean(object.ignorable)`, where the value is not nullish.
unfoldable pub bool_field : Value → Value
bool_field v = if is_nullish v then undefined else boolean (is_true v)

module _ (u : Util) where
  -- ToNumber and ToString.
  abbrev number_value : Value → Number
  number_value (number x) = x
  number_value (boolean true) = integer (pos 1)
  number_value (boolean false) = integer (pos 0)
  number_value v = u.number_of v

  abbrev text_value : Value → Text
  text_value (string s) = s
  text_value v = u.text_of v

  -- `object.streamId | 0`
  unfoldable pub int32_field : Value → Value
  unfolding to_int32 to_uint32
  int32_field v = if is_nullish v then undefined else number (integer (to_int32 (number_value v)))

  -- `object.connectionId >>> 0`
  unfoldable pub uint32_field : Value → Value
  unfolding to_uint32
  uint32_field v = if is_nullish v then undefined else nat (to_uint32 (number_value v))

  -- A string is decoded, what has a length is taken as it is, and all else is left out.
  unfoldable pub payload_field : Value → Option Value
  payload_field (string s) = u.base64_decode s >>= λ b. some (buffer b)
  payload_field (buffer b) = some (buffer b)
  payload_field (array a) = some (array a)
  payload_field _ = some undefined

  -- `String(object.serviceId)`
  unfoldable pub text_field : Value → Value
  text_field v = if is_nullish v then undefined else string (text_value v)

  unfoldable pub texts_of : Values → Values
  texts_of nil = nil
  texts_of (cons v vs) = cons (string (text_value v)) (texts_of vs)

  abbrev pub array_texts : Value → Option Value
  array_texts (array vs) = some (array (texts_of vs))
  array_texts _ = none

  -- A value that holds and is no array makes `fromObject` throw a TypeError.
  unfoldable pub texts_field : Value → Option Value
  unfolding texts_of
  texts_field v = if is_true v then array_texts v else some undefined

-- `Type[message.type]`, if the number is that of an enum value.
unfoldable pub name_of : List Text → ℤ → Option Text
name_of [] z = none
name_of (name ∷ names) (pos zero) = some name
name_of (name ∷ names) (pos (suc n)) = name_of names (pos n)
name_of (name ∷ names) (negsuc n) = none

-- `message.payload` in the form asked for. The default is the view of no bytes: `""`, `[]` or a
-- new buffer of `[]`.
abbrev pub bytes_as : BytesAs → (Bytes → Text) → Bytes → Value
bytes_as as_string encode b = string (encode b)
bytes_as as_array encode b = array (numbers b)
bytes_as as_buffer encode b = buffer b

abbrev pub default_as : BytesAs → Value
default_as as_string = string []
default_as as_array = array nil
default_as as_buffer = buffer []

-- A property of the message, if it has it.
abbrev pub own {ℓ} : {A : Type ℓ} → (A → Value) → Option A → Value
own show none = undefined
own show (some a) = show a

module _ (o : Options) where
  -- `options.enums === String ? Type[t] === undefined ? t : Type[t] : t`
  unfoldable pub type_view : List Text → ℤ → Value
  unfolding name_of
  type_view names z =
      if o.enums_string
      then elim (name_of names z) [ some name ↦ string name | none ↦ number (integer z) ]
      else number (integer z)

  -- `options.enums === String ? "UNKNOWN" : 0`
  abbrev pub type_default : Value
  type_default = if o.enums_string then string (codes "UNKNOWN") else nat 0

  unfoldable pub payload_view : Util → Bytes → Value
  payload_view u b = bytes_as o.bytes u.base64_encode b

  unfoldable pub payload_default : Value
  payload_default = default_as o.bytes

  -- A property of the message, or its default where the options ask for defaults.
  abbrev pub view {ℓ} : {A : Type ℓ} → Value → (A → Value) → Option A → Value
  view default show none = if o.defaults then default else undefined
  view default show (some a) = show a

  -- `availableServiceIds`, which the option `arrays` also asks for.
  unfoldable pub texts_view : List Text → Value
  texts_view [] = if o.arrays || o.defaults then array nil else undefined
  texts_view (s ∷ r) = array (strings (s ∷ r))
