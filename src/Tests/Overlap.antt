-- ===== src/Tests/Overlap.antt =====
-- Overlapping calls of SFTPHandle of lib/sftp.ts and of TransportManager of lib/transport.ts at
-- concrete inputs.
use sshclient_sftp_wasm.Base.{◌≡◌, true, List, [], ◌∷◌, each, codes, Text, text_eq}
use sshclient_sftp_wasm.Client.Program.{resolved}
use sshclient_sftp_wasm.Client.State.{Transport}
use sshclient_sftp_wasm.Client.Interleaved.{
  Sharing, Moment, creates, close_starts, close_settles, manager_step, slot, slot_step, only_for,
}
use sshclient_sftp_wasm.Client.Independence.{slots_independent}
use sshclient_sftp_wasm.Sftp.Handle.{sftp_close, sftp_mkdir}
use sshclient_sftp_wasm.Sftp.Overlap.{
  close_starts as closes, close_settles as settled_close, mkdir_starts, advance, open_handle,
  overlapping_calls,
}

abbrev t1 : Text
t1 = codes "t1"

abbrev t2 : Text
t2 = codes "t2"

abbrev second : Transport
second = record { object = 2; id = t2 }

abbrev third : Transport
third = record { object = 3; id = t1 }

-- The transports 1 and 2 are held.
abbrev held : Sharing
held = record { wasm_set = true; transports = (t1, 1) ∷ (t2, 2) ∷ []; waiting = []; log = [] }

abbrev moments : List Moment
moments =
    close_starts t1
    ∷ close_starts t2
    ∷ creates third (resolved tt)
    ∷ close_settles t2 (resolved tt) (resolved tt)
    ∷ close_settles t1 (resolved tt) (resolved tt)
    ∷ []

slots_independent_example :
    slot t1 (each manager_step moments held)
    ≡ each
        (slot_step true)
        (close_starts t1
          ∷ creates third (resolved tt)
          ∷ close_settles t1 (resolved tt) (resolved tt)
          ∷ [])
        (slot t1 held)
unfolding only_for text_eq
slots_independent_example = slots_independent t1 moments held

overlapping_calls_example :
    let s =
      each advance
        (closes
          ∷ closes
          ∷ mkdir_starts (codes "/a")
          ∷ settled_close
          ∷ mkdir_starts (codes "/b")
          ∷ [])
        (open_handle (codes "f1") [] 0) in
    (s.sftp_handle.calls
      ≡ sftp_close (codes "f1")
        ∷ sftp_close (codes "f1")
        ∷ sftp_mkdir (codes "f1") (codes "/a")
        ∷ [])
    × (s.sftp_handle.closed ≡ true)
overlapping_calls_example =
    overlapping_calls (codes "f1") 0 []
      (closes ∷ closes ∷ mkdir_starts (codes "/a") ∷ settled_close ∷ mkdir_starts (codes "/b") ∷ [])
