-- ===== src/Plain/Util.antt =====
-- What lib/aws-iot-tunnel/protobuf-messages.js and lib/tunnel.js take from elsewhere: `util` of
-- the package protobufjs, and the coercions of the language, which run methods of the value. The
-- package is not part of the repository, so both are parameters.
use sshclient_sftp_wasm.Base.{◌<◌, ◌≡◌, ℤ, Bool, true, Option, some, [], All, Bytes, Text}
use sshclient_sftp_wasm.Plain.Value.{Number, integer, Value, number, string}

-- `options.bytes`: the constructor String, the constructor Array, or anything else.
pub data BytesAs : Type 0 where
  as_string : BytesAs
  as_array : BytesAs
  as_buffer : BytesAs

-- IConversionOptions, as far as `toObject` reads it. `enums_string` is `options.enums === String`.
pub record Options : Type 0 where
  pub defaults : Bool
  pub arrays : Bool
  pub oneofs : Bool
  pub enums_string : Bool
  pub bytes : BytesAs

pub record Util : Type 0 where
  -- `util.isInteger` and `util.isString`.
  pub is_integer : Value → Bool
  pub is_string : Value → Bool
  -- `util.base64`; `none` is a text that `decode` refuses. `decode` writes to a new buffer of the
  -- length that `util.base64.length` computes, which is the buffer of the bytes decoded.
  pub base64_encode : Bytes → Text
  pub base64_decode : Text → Option Bytes
  pub to_json_options : Options
  -- ToNumber of a value that is no number and no boolean, and ToString of one that is no string.
  pub number_of : Value → Number
  pub text_of : Value → Text

pub record IsUtil (u : Util) : Type 0 where
  pub integers : (z : ℤ) → u.is_integer (number (integer z)) ≡ true
  pub texts : (s : Text) → u.is_string (string s) ≡ true
  pub base64_empty : u.base64_decode [] ≡ some []
  pub base64_back :
      (b : Bytes) → All (λ x. x < 256) b → u.base64_decode (u.base64_encode b) ≡ some b
