-- ===== src/Sftp/Handle.antt =====
-- SFTPHandle of lib/sftp.ts: one method after the other.
use sshclient_sftp_wasm.Base.{
  Bool, true, Option, none, some, List, [], ◌∷◌, ◌++◌, codes, if◌then◌else◌, Bytes, Text,
}
use sshclient_sftp_wasm.Client.Errors.{Thrown, plain_error, wrap_ssh_error}
use sshclient_sftp_wasm.Client.Program.{
  Outcome, Program, pure, throw, ◌>>=◌, ◌>>◌, catching, finally,
}
use sshclient_sftp_wasm.Sftp.Base64.{chunked_base64}

-- The calls of the WebAssembly module.
pub data SftpCall : Type 0 where
  sftp_put : Text → Text → Text → SftpCall
  sftp_mkdir : Text → Text → SftpCall
  sftp_close : Text → SftpCall

-- What a call comes to, after the calls before it.
abbrev pub Replies : Type 0
Replies = List SftpCall → SftpCall → Outcome (Unit {0})

pub record SftpHandle : Type 0 where
  pub sftp_session_id : Text
  pub closed : Bool
  pub calls : List SftpCall

abbrev pub has_been_closed : Text → Thrown
has_been_closed i = plain_error (codes "SFTPHandle " ++ (i ++ codes " has been closed"))

-- `throw` of btoa
abbrev pub invalid_character : Thrown
invalid_character = plain_error (codes "InvalidCharacterError")

abbrev pub ensure_open : Program SftpHandle (Unit {0})
ensure_open h = if h.closed then throw (has_been_closed h.sftp_session_id) h else pure tt h

abbrev pub encoded : Option Text → Program SftpHandle Text
encoded none = throw invalid_character
encoded (some text) = pure text

module _ (replies : Replies) where
  abbrev pub ask : SftpCall → Program SftpHandle (Unit {0})
  ask k h = (replies h.calls k, record h { calls = h.calls ++ (k ∷ []) })

  -- `try { await … } catch (e) { throw wrapSSHError(e) }`
  abbrev pub ask_wrapped : (SftpHandle → SftpCall) → Program SftpHandle (Unit {0})
  ask_wrapped k h = catching (ask (k h)) (λ e. throw (wrap_ssh_error e)) h

  unfoldable pub put : Text → Bytes → Program SftpHandle (Unit {0})
  put path bytes = do
    ensure_open
    b64 ← encoded (chunked_base64 bytes)
    ask_wrapped (λ h. sftp_put h.sftp_session_id path b64)

  unfoldable pub mkdir : Text → Program SftpHandle (Unit {0})
  mkdir path = do ensure_open; ask_wrapped (λ h. sftp_mkdir h.sftp_session_id path)

  abbrev pub set_closed : Program SftpHandle (Unit {0})
  set_closed h = pure tt (record h { closed = true })

  unfoldable pub close_once : Program SftpHandle (Unit {0})
  close_once = finally (ask_wrapped (λ h. sftp_close h.sftp_session_id)) set_closed

  unfoldable pub close : Program SftpHandle (Unit {0})
  close h = if h.closed then pure tt h else close_once h
