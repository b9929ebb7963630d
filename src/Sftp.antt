-- ===== src/Sftp.antt =====
-- The SFTP handle and base64.
pub mod Base64
pub mod RoundTrip
pub mod Handle
pub mod Closing
pub mod Overlap
