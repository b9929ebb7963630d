-- ===== src/Client/Operations.antt =====
-- The calls that an owner of SSHClient in lib/index.ts makes, as steps of the client's state.
use sshclient_sftp_wasm.Base.{ℕ, Bytes, Text}
use sshclient_sftp_wasm.Client.State.{Transport, ConnectionOptions, Env, Client}
use sshclient_sftp_wasm.Client.Api.{
  Session, connect, get_server_fingerprint, send, disconnect, resize_terminal, sftp_open,
  disconnect_by_id, send_by_id, get_version,
}

-- What the owner of the client calls.
pub data Operation : Type 0 where
  connects captures : ConnectionOptions → Transport → Operation
  sends : Session → Bytes → Operation
  disconnects opens_sftp : Session → Operation
  resizes : Session → ℕ → ℕ → Operation
  disconnects_by_id : Text → Operation
  sends_by_id : Text → Bytes → Operation
  asks_version : Operation

module _ (env : Env) where
  unfoldable pub step : Operation → Client → Client
  step (connects options t) c = (connect env options t c).1
  step (captures options t) c = (get_server_fingerprint env options t c).1
  step (sends s b) c = (send env s b c).1
  step (disconnects s) c = (disconnect env s c).1
  step (opens_sftp s) c = (sftp_open env s c).1
  step (resizes s cols rows) c = (resize_terminal env s cols rows c).1
  step (disconnects_by_id i) c = (disconnect_by_id env i c).1
  step (sends_by_id i b) c = (send_by_id env i b c).1
  step asks_version c = (get_version env c).1
