-- ===== src/Messages.antt =====
-- lib/aws-iot-tunnel/protobuf-messages.js: the message classes of the tunnel protocol.
pub mod Fields
pub mod Props
pub mod Delimited
pub mod V1
pub mod V2
pub mod V3
pub mod Class
pub mod AnyClass
pub mod RoundTrip
pub mod Total
pub mod Skips
pub mod Streams
