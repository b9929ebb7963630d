-- ===== src/Plain/Value.antt =====
-- The values of a dynamic language that lib/aws-iot-tunnel/protobuf-messages.js and lib/tunnel.js
-- read from a plain object, and the plain object itself with the keys that they read.
use sshclient_sftp_wasm.Base.{
  ℕ, zero, ◌-◌, ◌%◌, ◌^◌, ◌<◌, ◌≡◌, ℤ, pos, negsuc, IsInt32, Bool, true, false, List, [], ◌∷◌, ltb,
  if◌then◌else◌, arith, Bytes, Text,
}

-- A number. A fraction has its part before the point and its digits; it and the values that are
-- not finite are no integers.
pub data Number : Type 0 where
  integer : ℤ → Number
  fraction : ℤ → Text → Number
  infinity : Bool → Number
  nan : Number

mutual
  pub data Value : Type 0 where
    undefined : Value
    null : Value
    boolean : Bool → Value
    number : Number → Value
    string : Text → Value
    -- A Uint8Array.
    buffer : Bytes → Value
    array : Values → Value
    -- An object or a function, with no `length`.
    object : Value

  pub data Values : Type 0 where
    nil : Values
    cons : Value → Values → Values

abbrev pub nat : ℕ → Value
nat n = number (integer (pos n))

abbrev pub strings : List Text → Values
strings [] = nil
strings (s ∷ r) = cons (string s) (strings r)

abbrev pub numbers : Bytes → Values
numbers [] = nil
numbers (b ∷ s) = cons (nat b) (numbers s)

-- The values of a plain object or of a message at the keys that are read. A key that is absent
-- has the value `undefined`, for the code never tells the two apart.
pub record Plain : Type 0 where
  pub type : Value
  pub stream_id : Value
  pub ignorable : Value
  pub payload : Value
  pub service_id : Value
  pub available_service_ids : Value
  pub connection_id : Value

-- `new ProtocolV1Message()` and the others: a message with no property of its own.
abbrev pub no_properties : Plain
no_properties = record {
  type = undefined;
  stream_id = undefined;
  ignorable = undefined;
  payload = undefined;
  service_id = undefined;
  available_service_ids = undefined;
  connection_id = undefined;
}

-- What is handed to `verify` or `fromObject`: null or undefined, another primitive value, an
-- object, or a message of the class, by its own properties.
pub data Input : Type 0 where
  nothing : Input
  primitive : Input
  plain : Plain → Input
  instance_of : Plain → Input

-- `x == null`
abbrev pub is_nullish : Value → Bool
is_nullish undefined = true
is_nullish null = true
is_nullish _ = false

-- Is the value one that a condition takes for true?
abbrev pub is_true : Value → Bool
is_true undefined = false
is_true null = false
is_true (boolean b) = b
is_true (number (integer (pos zero))) = false
is_true (number nan) = false
is_true (string []) = false
is_true _ = true

-- The residue of a number modulo 2^32: `x >>> 0`. What is not finite gives 0.
abbrev residue : ℤ → ℕ
residue (pos n) = n % 2 ^ 32
residue (negsuc n) = 2 ^ 32 - 1 - (n % 2 ^ 32)

unfoldable pub to_uint32 : Number → ℕ
to_uint32 (integer z) = residue z
to_uint32 (fraction z digits) = residue z
to_uint32 (infinity b) = 0
to_uint32 nan = 0

-- `x | 0`, the residue read as a signed number.
unfoldable pub to_int32 : Number → ℤ
to_int32 x =
    if ltb (to_uint32 x) (2 ^ 31) then pos (to_uint32 x) else negsuc (2 ^ 32 - 1 - to_uint32 x)

pub to_int32-integer : (z : ℤ) → IsInt32 z → to_int32 (integer z) ≡ z
unfolding to_int32 to_uint32
to_int32-integer (pos n) h = ground arith
to_int32-integer (negsuc n) h = ground arith

pub to_uint32-integer : (n : ℕ) → n < 2 ^ 32 → to_uint32 (integer (pos n)) ≡ n
unfolding to_uint32
to_uint32-integer n h = omega arith
