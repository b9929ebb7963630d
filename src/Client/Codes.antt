-- ===== src/Client/Codes.antt =====
-- What lib/errors.ts promises: the codes are stable.
use mathlib.Core.Option
use sshclient_sftp_wasm.Base.{◌≡◌, refl, ◌⊎◌, inl, inr, ap, ◌∙◌, Option, none, some, Text, text_eq}
use sshclient_sftp_wasm.Client.Errors.{
  HostKeyPin, ErrorClass, host_key_pin_required, host_key_mismatch, ppk_format, invalid_private_key,
  auth_failed, transport_error, internal, code_name, Thrown, ssh_error, plain_error, string, object,
  other, class_of, class_or_internal, message_or, new_error, wrap_ssh_error, code_of, message_of,
}

class_of-code_name : (k : ErrorClass) → class_of (code_name k) ≡ k
unfolding class_of text_eq
class_of-code_name host_key_pin_required = refl
class_of-code_name host_key_mismatch = refl
class_of-code_name ppk_format = refl
class_of-code_name invalid_private_key = refl
class_of-code_name auth_failed = refl
class_of-code_name transport_error = refl
class_of-code_name internal = refl

code_of-new_error :
    (k : ErrorClass) (m : Text) (e g : Option HostKeyPin)
    → code_of (new_error k m e g) ≡ some (code_name k)
code_of-new_error host_key_mismatch m e g = refl
code_of-new_error k m e g = refl

message_of-new_error :
    (k : ErrorClass) (m : Text) (e g : Option HostKeyPin) → message_of (new_error k m e g) ≡ some m
message_of-new_error host_key_mismatch m e g = refl
message_of-new_error k m e g = refl

-- `wrapSSHError` keeps the code of everything that carries one of the stable codes, be it an error
-- object of the classes or what the WebAssembly side sends, and keeps its message; where it has no
-- message the code stands for it.
pub wrap_ssh_error-code :
    (k : ErrorClass) (e : Thrown)
    → code_of e ≡ some (code_name k)
    → (code_of (wrap_ssh_error e) ≡ some (code_name k))
      × (message_of (wrap_ssh_error e) ≡ some (Option.get_or (message_of e) (code_name k)))
unfolding wrap_ssh_error
wrap_ssh_error-code k (ssh_error j m x g) p = (p, refl)
wrap_ssh_error-code k (plain_error m) p = cc
wrap_ssh_error-code k (string s) p = cc
wrap_ssh_error-code k (object none m x g) p = cc
wrap_ssh_error-code k (object (some c) m x g) p = (
  code_of-new_error _ _ x g
      ∙ ap (λ j. some (code_name j)) (ap class_of same ∙ class_of-code_name k),
  message_of-new_error _ _ x g ∙ ap some (message_or-get_or m ∙ ap (Option.get_or m) same),
)
  where
    same : c ≡ code_name k
    same = cc

    message_or-get_or : (o : Option Text) → message_or (some c) o ≡ Option.get_or o c
    message_or-get_or none = refl
    message_or-get_or (some m') = refl
wrap_ssh_error-code k (other s) p = cc

-- Whatever is thrown, `wrapSSHError` gives an error with one of the stable codes, except for an
-- Error of another class, which it returns as it is.
pub wrap_ssh_error-IsTyped :
    (e : Thrown)
    → ((k : ErrorClass) × (code_of (wrap_ssh_error e) ≡ some (code_name k)))
      ⊎ ((m : Text) × (e ≡ plain_error m) × (wrap_ssh_error e ≡ e))
unfolding wrap_ssh_error
wrap_ssh_error-IsTyped (ssh_error k m x g) = inl (k, refl)
wrap_ssh_error-IsTyped (plain_error m) = inr (m, refl, refl)
wrap_ssh_error-IsTyped (string s) = inl (internal, refl)
wrap_ssh_error-IsTyped (object c m x g) = inl (class_or_internal c, code_of-new_error _ _ x g)
wrap_ssh_error-IsTyped (other s) = inl (internal, refl)
