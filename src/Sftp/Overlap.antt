-- ===== src/Sftp/Overlap.antt =====
-- SFTPHandle of lib/sftp.ts where its methods overlap: each runs up to its `await` when it is called,
-- and goes on when the module's promise settles, with other calls in between.
use sshclient_sftp_wasm.Base.{
  ℕ, zero, suc, ◌≡◌, refl, sym, ◌∙◌, Bool, true, false, List, [], ◌∷◌, ◌++◌, each, append_assoc,
  append-nil, if◌then◌else◌, Text,
}
use sshclient_sftp_wasm.Sftp.Handle.{SftpCall, sftp_put, sftp_mkdir, sftp_close, SftpHandle}

-- The handle, and the calls of `close` whose promise has not settled.
pub record Overlapping : Type 0 where
  pub sftp_handle : SftpHandle
  pub closing : ℕ

-- `close`, `put` and `mkdir` are called, with the text that `put` makes of its bytes; the promise of
-- a call of `close` settles, and `finally` runs. Behind their promise `put` and `mkdir` do nothing.
pub data HandleMoment : Type 0 where
  close_starts close_settles : HandleMoment
  put_starts : Text → Text → HandleMoment
  mkdir_starts : Text → HandleMoment

abbrev ask_module : (Text → SftpCall) → SftpHandle → SftpHandle
ask_module k h = if h.closed then h else record h { calls = h.calls ++ (k h.sftp_session_id ∷ []) }

abbrev settle_one : ℕ → Overlapping → Overlapping
settle_one zero s = s
settle_one (suc n) s = record { sftp_handle = record s.sftp_handle { closed = true }; closing = n }

unfoldable pub advance : HandleMoment → Overlapping → Overlapping
advance close_starts s =
    if s.sftp_handle.closed
    then s
    else record { sftp_handle = ask_module sftp_close s.sftp_handle; closing = suc s.closing }
advance close_settles s = settle_one s.closing s
advance (put_starts path text) s = record s {
  sftp_handle = ask_module (λ i. sftp_put i path text) s.sftp_handle;
}
advance (mkdir_starts path) s = record s {
  sftp_handle = ask_module (λ i. sftp_mkdir i path) s.sftp_handle;
}

-- The calls of the methods that start before the first call of `close` settles, where `n` calls of
-- `close` have not settled; behind that none.
abbrev pub asked_calls : Text → ℕ → List HandleMoment → List SftpCall
asked_calls i n [] = []
asked_calls i n (close_starts ∷ ms) = sftp_close i ∷ asked_calls i (suc n) ms
asked_calls i zero (close_settles ∷ ms) = asked_calls i zero ms
asked_calls i (suc n) (close_settles ∷ ms) = []
asked_calls i n (put_starts path text ∷ ms) = sftp_put i path text ∷ asked_calls i n ms
asked_calls i n (mkdir_starts path ∷ ms) = sftp_mkdir i path ∷ asked_calls i n ms

-- Does a call of `close` settle?
abbrev pub settles : ℕ → List HandleMoment → Bool
settles n [] = false
settles n (close_starts ∷ ms) = settles (suc n) ms
settles zero (close_settles ∷ ms) = settles zero ms
settles (suc n) (close_settles ∷ ms) = true
settles n (put_starts path text ∷ ms) = settles n ms
settles n (mkdir_starts path ∷ ms) = settles n ms

settle_closed :
    (n : ℕ) (s : Overlapping)
    → s.sftp_handle.closed ≡ true
    → ((settle_one n s).sftp_handle.closed ≡ true)
      × ((settle_one n s).sftp_handle.calls ≡ s.sftp_handle.calls)
settle_closed zero s e = (e, refl)
settle_closed (suc n) s e = (refl, refl)

advance_closed :
    (m : HandleMoment) (s : Overlapping)
    → s.sftp_handle.closed ≡ true
    → ((advance m s).sftp_handle.closed ≡ true)
      × ((advance m s).sftp_handle.calls ≡ s.sftp_handle.calls)
unfolding advance
advance_closed close_starts s e = simp e (refl, refl)
advance_closed close_settles s e = settle_closed s.closing s e
advance_closed (put_starts path text) s e = simp e (refl, refl)
advance_closed (mkdir_starts path) s e = simp e (refl, refl)

each_closed :
    (ms : List HandleMoment) (s : Overlapping)
    → s.sftp_handle.closed ≡ true
    → ((each advance ms s).sftp_handle.closed ≡ true)
      × ((each advance ms s).sftp_handle.calls ≡ s.sftp_handle.calls)
each_closed [] s e = (e, refl)
each_closed (m ∷ ms) s e =
    let (closed, same) = advance_closed m s e in
    let (after, calls) = each_closed ms (advance m s) closed in (after, calls ∙ same)

-- An open handle with these calls made.
abbrev pub open_handle : Text → List SftpCall → ℕ → Overlapping
open_handle i calls n = record {
  sftp_handle = record { sftp_session_id = i; closed = false; calls = calls };
  closing = n;
}

-- On an open handle, with any calls of the module made and any number of calls of `close` that have
-- not settled: whatever calls of the methods overlap, the module is asked behind those made, once for
-- each and in their order, by the calls of `close`, `put` and `mkdir` that start before the first
-- call of `close` settles, and by no other; the handle is closed exactly if one has settled.
pub overlapping_calls :
    (i : Text) (n : ℕ) (calls : List SftpCall) (ms : List HandleMoment)
    → let s = each advance ms (open_handle i calls n) in
      (s.sftp_handle.calls ≡ calls ++ asked_calls i n ms) × (s.sftp_handle.closed ≡ settles n ms)
unfolding advance
overlapping_calls i n calls [] = (sym (append-nil calls), refl)
overlapping_calls i n calls (close_starts ∷ ms) =
    let (a, b) = overlapping_calls i (suc n) (calls ++ (sftp_close i ∷ [])) ms in
    (a ∙ append_assoc calls (sftp_close i ∷ []) (asked_calls i (suc n) ms), b)
overlapping_calls i zero calls (close_settles ∷ ms) = overlapping_calls i zero calls ms
overlapping_calls i (suc n) calls (close_settles ∷ ms) =
    let (a, b) =
      each_closed ms
        (record {
          sftp_handle = record { sftp_session_id = i; closed = true; calls = calls };
          closing = n;
        })
        refl in
    (b ∙ sym (append-nil calls), a)
overlapping_calls i n calls (put_starts path text ∷ ms) =
    let (a, b) = overlapping_calls i n (calls ++ (sftp_put i path text ∷ [])) ms in
    (a ∙ append_assoc calls (sftp_put i path text ∷ []) (asked_calls i n ms), b)
overlapping_calls i n calls (mkdir_starts path ∷ ms) =
    let (a, b) = overlapping_calls i n (calls ++ (sftp_mkdir i path ∷ [])) ms in
    (a ∙ append_assoc calls (sftp_mkdir i path ∷ []) (asked_calls i n ms), b)
