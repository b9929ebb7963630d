-- ===== src/Sftp/Closing.antt =====
-- What SFTPHandle of lib/sftp.ts calls before and after it is closed.
use sshclient_sftp_wasm.Base.{
  ◌≡◌, refl, true, false, some, List, [], ◌∷◌, ◌++◌, All, each, Bytes, Text,
}
use sshclient_sftp_wasm.Client.Errors.{wrap_ssh_error}
use sshclient_sftp_wasm.Client.Program.{Outcome, resolved, rejected, throw, handle}
use sshclient_sftp_wasm.Sftp.Base64.{from_base64}
use sshclient_sftp_wasm.Sftp.RoundTrip.{IsByte, from_base64-chunked_base64}
use sshclient_sftp_wasm.Sftp.Handle.{
  SftpCall, sftp_put, sftp_close, Replies, SftpHandle, has_been_closed, ensure_open, ask_wrapped,
  put, mkdir, close, close_once,
}

pub data Operation : Type 0 where
  puts : Text → Bytes → Operation
  mkdirs : Text → Operation
  closes : Operation

-- What the wrapped call comes to.
abbrev pub wrapped : Outcome (Unit {0}) → Outcome (Unit {0})
wrapped (resolved u) = resolved u
wrapped (rejected e) = rejected (wrap_ssh_error e)

-- What an operation comes to on a closed handle.
abbrev pub refusal : Text → Operation → Outcome (Unit {0})
refusal i closes = resolved tt
refusal i (puts path bytes) = rejected (has_been_closed i)
refusal i (mkdirs path) = rejected (has_been_closed i)

module _ (replies : Replies) where
  unfoldable pub step : Operation → SftpHandle → Outcome (Unit {0}) × SftpHandle
  step (puts path bytes) h = put replies path bytes h
  step (mkdirs path) h = mkdir replies path h
  step closes h = close replies h

  ask_wrapped_lem :
      (k : SftpHandle → SftpCall) (h : SftpHandle)
      → ask_wrapped replies k h
        ≡ (wrapped (replies h.calls (k h)), record h { calls = h.calls ++ (k h ∷ []) })
  ask_wrapped_lem k h = go (replies h.calls (k h)) _
    where
      go :
          (o : Outcome (Unit {0})) (d : SftpHandle)
          → handle (λ e. throw (wrap_ssh_error e)) (o, d) ≡ (wrapped o, d)
      go (resolved u) d = refl
      go (rejected e) d = refl

  ensure_open_passes : (h : SftpHandle) → h.closed ≡ false → ensure_open h ≡ (resolved tt, h)
  ensure_open_passes h p = simp p

  ensure_open_refuses :
      (h : SftpHandle)
      → h.closed ≡ true
      → ensure_open h ≡ (rejected (has_been_closed h.sftp_session_id), h)
  ensure_open_refuses h p = simp p

  -- On an open handle `put` asks the module once, for the file under that path, with a text that
  -- decodes to exactly the bytes given (numbers below 256); it settles as the module answers, errors being wrapped.
  pub put_delivers :
      (path : Text) (bytes : Bytes) (h : SftpHandle)
      → h.closed ≡ false
      → All IsByte bytes
      → (text : Text) × (from_base64 text ≡ some bytes)
        × (put replies path bytes h ≡ (
          wrapped (replies h.calls (sftp_put h.sftp_session_id path text)),
          record h { calls = h.calls ++ (sftp_put h.sftp_session_id path text ∷ []) },
        ))
  unfolding put
  put_delivers path bytes h p v =
      let (text, e, back) = from_base64-chunked_base64 bytes v in
      (
        text,
        back,
        rw (ensure_open_passes h p, e)
            (ask_wrapped_lem (λ d. sftp_put d.sftp_session_id path text) h),
      )

  close_once_closes :
      (h : SftpHandle)
      → (close_once replies h).1
        ≡ record h { closed = true; calls = h.calls ++ (sftp_close h.sftp_session_id ∷ []) }
  unfolding close_once
  close_once_closes h = rw (ask_wrapped_lem (λ d. sftp_close d.sftp_session_id) h)

  close_open : (h : SftpHandle) → h.closed ≡ false → close replies h ≡ close_once replies h
  unfolding close
  close_open h p = simp p

  close_closes :
      (h : SftpHandle)
      → h.closed ≡ false
      → (close replies h).1
        ≡ record h { closed = true; calls = h.calls ++ (sftp_close h.sftp_session_id ∷ []) }
  close_closes h p = rw (close_open h p, close_once_closes h)

  step_closed : (op : Operation) (h : SftpHandle) → h.closed ≡ true → (step op h).1 ≡ h
  unfolding step put mkdir close
  step_closed (puts path bytes) h p = simp p
  step_closed (mkdirs path) h p = simp p
  step_closed closes h p = simp p

  run_closed :
      (ops : List Operation) (h : SftpHandle)
      → h.closed ≡ true
      → each (λ op d. (step op d).1) ops h ≡ h
  run_closed [] h p = refl
  run_closed (op ∷ ops) h p = rw (step_closed op h p) (run_closed ops h p)

  step_refused :
      (op : Operation) (h : SftpHandle)
      → h.closed ≡ true
      → (step op h).0 ≡ refusal h.sftp_session_id op
  unfolding step put mkdir close
  step_refused (puts path bytes) h p = simp p
  step_refused (mkdirs path) h p = simp p
  step_refused closes h p = simp p

  -- `close` asks the module once, and even if that fails the handle is closed for good: whatever
  -- follows, the module is asked for nothing more, `put` and `mkdir` reject, and `close` resolves.
  pub close_final :
      (ops : List Operation) (op : Operation) (h : SftpHandle)
      → h.closed ≡ false
      → let d = each (λ o x. (step o x).1) ops (close replies h).1 in
        (d.calls ≡ h.calls ++ (sftp_close h.sftp_session_id ∷ []))
        × ((step op d).0 ≡ refusal h.sftp_session_id op)
        × ((step op d).1 ≡ d)
  close_final ops op h p =
      rw (close_closes h p, run_closed ops (closed_by h) refl)
        (refl, step_refused op (closed_by h) refl, step_closed op (closed_by h) refl)
    where
      closed_by : SftpHandle → SftpHandle
      closed_by x = record x {
        closed = true;
        calls = x.calls ++ (sftp_close x.sftp_session_id ∷ []);
      }
