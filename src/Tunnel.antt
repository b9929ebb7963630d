-- ===== src/Tunnel.antt =====
-- lib/aws-iot-tunnel.ts: SecureTunnelTransport, the framing and the handshake of the tunnel.
pub mod State
pub mod Url
pub mod Token
pub mod Outgoing
pub mod Incoming
pub mod Lifecycle
pub mod Stream
pub mod Chunks
pub mod Transfer
pub mod Queue
pub mod Handshake
pub mod Reconnect
pub mod Pipe
pub mod Stale
