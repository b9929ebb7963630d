-- ===== src/Sockets.antt =====
-- The transports of lib/transport.ts.
pub mod WebSocketTransport
pub mod CustomTransport
pub mod Views
pub mod Connected
