-- ===== src/Client.antt =====
-- The clients of the transports.
pub mod Errors
pub mod Codes
pub mod Program
pub mod State
pub mod Manager
pub mod Api
pub mod Transports
pub mod Lifetime
pub mod Closing
pub mod Operations
pub mod Keeps
pub mod Pinning
pub mod Bridge
pub mod Interleaved
pub mod Slots
pub mod Independence
pub mod Alone
