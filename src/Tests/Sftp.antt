-- ===== src/Tests/Sftp.antt =====
-- SFTPHandle of lib/sftp.ts and the base64 functions at concrete inputs.
use sshclient_sftp_wasm.Base.{◌≡◌, refl, false, some, [], ◌∷◌, each, arith, Bytes, Text, codes}
use sshclient_sftp_wasm.Client.Errors.{plain_error}
use sshclient_sftp_wasm.Client.Program.{rejected}
use sshclient_sftp_wasm.Sftp.Base64.{to_base64, from_base64}
use sshclient_sftp_wasm.Sftp.RoundTrip.{from_base64-to_base64}
use sshclient_sftp_wasm.Sftp.Handle.{sftp_put, sftp_close, Replies, SftpHandle, put, close}
use sshclient_sftp_wasm.Sftp.Closing.{
  puts, mkdirs, closes, step, wrapped, refusal, put_delivers, close_final,
}

abbrev hi : Bytes
hi = 104 ∷ 105 ∷ 255 ∷ 0 ∷ []

-- The module fails at everything.
abbrev failing : Replies
failing calls k = rejected (plain_error (codes "EOF"))

abbrev handle : SftpHandle
handle = record { sftp_session_id = codes "f1"; closed = false; calls = [] }

from_base64-to_base64_example :
    (text : Text) × (to_base64 65536 hi ≡ some text) × (from_base64 text ≡ some hi)
from_base64-to_base64_example = from_base64-to_base64 65536 hi (omega arith) (omega arith)

put_delivers_example :
    (text : Text) × (from_base64 text ≡ some hi)
    × (put failing (codes "/a") hi handle ≡ (
      wrapped (failing handle.calls (sftp_put handle.sftp_session_id (codes "/a") text)),
      record handle { calls = sftp_put handle.sftp_session_id (codes "/a") text ∷ [] },
    ))
put_delivers_example = put_delivers failing (codes "/a") hi handle refl (omega arith)

close_final_example :
    let d =
      each
        (λ o x. (step failing o x).1)
        (puts (codes "/a") hi ∷ closes ∷ [])
        (close failing handle).1 in
    (d.calls ≡ sftp_close (codes "f1") ∷ [])
    × ((step failing (mkdirs (codes "/b")) d).0 ≡ refusal (codes "f1") (mkdirs (codes "/b")))
    × ((step failing (mkdirs (codes "/b")) d).1 ≡ d)
close_final_example =
    close_final failing (puts (codes "/a") hi ∷ closes ∷ []) (mkdirs (codes "/b")) handle refl
