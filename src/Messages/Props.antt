-- ===== src/Messages/Props.antt =====
-- The plain object that lib/aws-iot-tunnel.ts hands to `create`: TunnelMessage with the keys that
-- the code gives. A key that is absent, undefined or null is `none`.
use sshclient_sftp_wasm.Base.{ℕ, ℤ, Bool, Option, none, List, Bytes, Text}

pub record Props : Type 0 where
  pub type : Option ℤ
  pub stream_id : Option ℤ
  pub ignorable : Option Bool
  pub payload : Option Bytes
  pub service_id : Option Text
  pub available_service_ids : Option (List Text)
  pub connection_id : Option ℕ

abbrev pub no_props : Props
no_props = record {
  type = none;
  stream_id = none;
  ignorable = none;
  payload = none;
  service_id = none;
  available_service_ids = none;
  connection_id = none;
}
