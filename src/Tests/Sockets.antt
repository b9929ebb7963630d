-- ===== src/Tests/Sockets.antt =====
-- The transports of lib/transport.ts at concrete inputs.
use sshclient_sftp_wasm.Base.{
  ◌≡◌, refl, true, false, some, none, [], ◌∷◌, take, drop, each, arith, codes,
}
use sshclient_sftp_wasm.Tunnel.State.{ws_open}
use sshclient_sftp_wasm.Client.Errors.{plain_error}
use sshclient_sftp_wasm.Client.Program.{resolved, rejected}
use sshclient_sftp_wasm.Sockets.WebSocketTransport.{
  Uint8Array, elements, sent, data_out, WebSocketTransport, emit, send, binary, on_message,
}
use sshclient_sftp_wasm.Sockets.Views.{views_arrive}
use sshclient_sftp_wasm.Sockets.CustomTransport.{
  CustomTransport, Implementation, connects, disconnects, sends,
}
use sshclient_sftp_wasm.Sockets.Connected.{Respects, run-Respects}

abbrev transport : WebSocketTransport
transport = record {
  url = codes "wss://bridge";
  protocols = none;
  has_on_data = true;
  has_on_error = true;
  has_on_close = true;
  ws = some ws_open;
  callbacks = none;
  effects = [];
}

-- The middle of a buffer of four bytes.
abbrev middle : Uint8Array
middle = record { buffer = 1 ∷ 2 ∷ 3 ∷ 4 ∷ []; offset = 1; count = 2 }

abbrev whole : Uint8Array
whole = record { buffer = 1 ∷ 2 ∷ []; offset = 0; count = 2 }

views_arrive_example :
    each on_message (binary (1 ∷ 2 ∷ []) ∷ binary (1 ∷ 2 ∷ []) ∷ []) transport
    ≡ record transport { effects = data_out (1 ∷ 2 ∷ []) ∷ data_out (1 ∷ 2 ∷ []) ∷ [] }
unfolding send take drop
views_arrive_example =
    views_arrive (whole ∷ whole ∷ []) transport transport
      (binary (1 ∷ 2 ∷ []) ∷ binary (1 ∷ 2 ∷ []) ∷ [])
      ((refl, omega arith), ((refl, omega arith), tt)) refl refl refl

-- A view of a part of a buffer sends all of the buffer.
send-middle : send middle transport ≡ (resolved tt, emit (sent (1 ∷ 2 ∷ 3 ∷ 4 ∷ [])) transport)
unfolding send
send-middle = refl

middle-elements : elements middle ≡ 2 ∷ 3 ∷ []
unfolding take drop
middle-elements = refl

-- Every second call fails.
abbrev flaky : Implementation
flaky [] k = resolved tt
flaky (k ∷ []) l = rejected (plain_error (codes "lost"))
flaky (k ∷ j ∷ ks) l = flaky ks l

abbrev custom : CustomTransport
custom = record {
  is_connected = false;
  has_connect = true;
  has_disconnect = true;
  has_send = true;
  has_on_data = true;
  has_on_close = false;
  calls = [];
}

run-Respects_example :
    Respects flaky false (sends (7 ∷ []) ∷ connects ∷ sends (8 ∷ []) ∷ disconnects ∷ []) custom
run-Respects_example =
    run-Respects flaky (sends (7 ∷ []) ∷ connects ∷ sends (8 ∷ []) ∷ disconnects ∷ []) custom
