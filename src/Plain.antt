-- ===== src/Plain.antt =====
-- Plain objects and messages: `verify`, `fromObject`, `toObject` and `toJSON` of
-- lib/aws-iot-tunnel/protobuf-messages.js and lib/tunnel.js.
pub mod Value
pub mod Util
pub mod Fields
pub mod Checks
pub mod V1
pub mod V2
pub mod V3
pub mod Tunnel
pub mod Names
pub mod Back
pub mod RoundTrip
pub mod Verified
pub mod Verdict
