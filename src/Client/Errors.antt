-- ===== src/Client/Errors.antt =====
-- lib/errors.ts: the error classes and `wrapSSHError`.
use mathlib.Core.Option
use sshclient_sftp_wasm.Base.{Option, none, some, Text, codes, text_eq, if◌then◌else◌}

pub record HostKeyPin : Type 0 where
  pub algorithm : Text
  pub sha256 : Text

-- The classes that extend SSHError.
pub data ErrorClass : Type 0 where
  host_key_pin_required host_key_mismatch ppk_format invalid_private_key : ErrorClass
  auth_failed transport_error internal : ErrorClass

-- The `code` of each class.
abbrev pub code_name : ErrorClass → Text
code_name host_key_pin_required = codes "host-key-pin-required"
code_name host_key_mismatch = codes "host-key-mismatch"
code_name ppk_format = codes "ppk-not-supported"
code_name invalid_private_key = codes "invalid-private-key"
code_name auth_failed = codes "auth-failed"
code_name transport_error = codes "transport-error"
code_name internal = codes "internal"

-- What is thrown, or what a promise is rejected with.
pub data Thrown : Type 0 where
  -- an instance of one of the classes: its message, and `expected` and `got`
  ssh_error : ErrorClass → Text → Option HostKeyPin → Option HostKeyPin → Thrown
  -- any other Error: its message
  plain_error : Text → Thrown
  string : Text → Thrown
  -- an object with the properties that `wrapSSHError` reads: code, message, expected and got
  object : Option Text → Option Text → Option HostKeyPin → Option HostKeyPin → Thrown
  -- anything else: what `String` makes of it
  other : Text → Thrown

-- `switch (r.code)`
unfoldable pub class_of : Text → ErrorClass
class_of s =
    if text_eq s (codes "host-key-pin-required")
    then host_key_pin_required
    else if text_eq s (codes "host-key-mismatch")
    then host_key_mismatch
    else if text_eq s (codes "ppk-not-supported")
    then ppk_format
    else if text_eq s (codes "invalid-private-key")
    then invalid_private_key
    else if text_eq s (codes "auth-failed")
    then auth_failed
    else if text_eq s (codes "transport-error")
    then transport_error
    else internal

-- `r.message ?? String(r.code ?? "unknown")`
abbrev pub message_or : Option Text → Option Text → Text
message_or code (some message) = message
message_or code none = Option.get_or code (codes "unknown")

-- Only HostKeyMismatchError takes the pins.
abbrev pub new_error : ErrorClass → Text → Option HostKeyPin → Option HostKeyPin → Thrown
new_error host_key_mismatch message expected got = ssh_error host_key_mismatch message expected got
new_error k message expected got = ssh_error k message none none

abbrev pub class_or_internal : Option Text → ErrorClass
class_or_internal none = internal
class_or_internal (some s) = class_of s

unfoldable pub wrap_ssh_error : Thrown → Thrown
wrap_ssh_error (ssh_error k message expected got) = ssh_error k message expected got
wrap_ssh_error (plain_error message) = plain_error message
wrap_ssh_error (string s) = ssh_error internal s none none
wrap_ssh_error (object code message expected got) =
    new_error (class_or_internal code) (message_or code message) expected got
wrap_ssh_error (other s) = ssh_error internal s none none

-- What a caller that dispatches on `.code` and `.message` sees.
abbrev pub code_of : Thrown → Option Text
code_of (ssh_error k message expected got) = some (code_name k)
code_of (object code message expected got) = code
code_of e = none

abbrev pub message_of : Thrown → Option Text
message_of (ssh_error k message expected got) = some message
message_of (plain_error message) = some message
message_of (object code message expected got) = message
message_of e = none
