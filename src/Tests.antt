-- ===== src/Tests.antt =====
-- Runs at concrete inputs.
mod Messages
mod Tunnel
mod Client
mod Sftp
mod Sockets
mod Startup
mod Legacy
mod Frameworks
mod Plain
mod Pipe
mod Hooks
mod Overlap
