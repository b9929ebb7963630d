-- ===== src/Legacy.antt =====
-- The older message codec of lib/tunnel.js.
pub mod TunnelMessage
pub mod RoundTrip
pub mod Streams
