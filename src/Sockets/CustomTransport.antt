-- ===== src/Sockets/CustomTransport.antt =====
-- CustomTransport of lib/transport.ts: the implementation that its owner gives is called if present.
use sshclient_sftp_wasm.Base.{Bool, true, false, List, [], ◌∷◌, ◌++◌, codes, Bytes}
use sshclient_sftp_wasm.Client.Errors.{Thrown, plain_error}
use sshclient_sftp_wasm.Client.Program.{Outcome, Program, pure, throw, ◌>>◌}

-- The calls of the implementation, and of the owner's callbacks.
pub data CustomCall : Type 0 where
  connect_impl disconnect_impl close_out : CustomCall
  send_impl data_out : Bytes → CustomCall

pub record CustomTransport : Type 0 where
  pub is_connected : Bool
  pub has_connect : Bool
  pub has_disconnect : Bool
  pub has_send : Bool
  pub has_on_data : Bool
  pub has_on_close : Bool
  pub calls : List CustomCall

abbrev pub Implementation : Type 0
Implementation = List CustomCall → CustomCall → Outcome (Unit {0})

abbrev pub not_connected : Thrown
not_connected = plain_error (codes "Transport is not connected")

abbrev pub record_call : Bool → CustomCall → CustomTransport → CustomTransport
record_call true k t = record t { calls = t.calls ++ (k ∷ []) }
record_call false k t = t

-- What the owner calls.
pub data CustomOperation : Type 0 where
  connects disconnects : CustomOperation
  sends injects : Bytes → CustomOperation

module _ (impl : Implementation) where
  -- `if (this.xImpl) await this.xImpl(…)`
  abbrev pub call_impl : Bool → CustomCall → Program CustomTransport (Unit {0})
  call_impl true k t = (impl t.calls k, record t { calls = t.calls ++ (k ∷ []) })
  call_impl false k t = pure tt t

  abbrev pub set_connected : Bool → Program CustomTransport (Unit {0})
  set_connected b t = pure tt (record t { is_connected = b })

  unfoldable pub connect : Program CustomTransport (Unit {0})
  connect t = (call_impl t.has_connect connect_impl >> set_connected true) t

  abbrev pub finish_disconnect : Program CustomTransport (Unit {0})
  finish_disconnect t =
      pure tt (record_call t.has_on_close close_out (record t { is_connected = false }))

  unfoldable pub disconnect : Program CustomTransport (Unit {0})
  disconnect t = (call_impl t.has_disconnect disconnect_impl >> finish_disconnect) t

  abbrev pub send_on : Bool → Bytes → Program CustomTransport (Unit {0})
  send_on true bytes t = call_impl t.has_send (send_impl bytes) t
  send_on false bytes t = throw not_connected t

  unfoldable pub send : Bytes → Program CustomTransport (Unit {0})
  send bytes t = send_on t.is_connected bytes t

  unfoldable pub inject_data : Bytes → Program CustomTransport (Unit {0})
  inject_data bytes t = pure tt (record_call t.has_on_data (data_out bytes) t)

  abbrev pub step : CustomOperation → Program CustomTransport (Unit {0})
  step connects = connect
  step disconnects = disconnect
  step (sends bytes) = send bytes
  step (injects bytes) = inject_data bytes
