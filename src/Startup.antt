-- ===== src/Startup.antt =====
-- How SSHClient of lib/index.ts is initialized.
pub mod Assets
pub mod Initialize
pub mod Ready
pub mod Missing
pub mod Entries
pub mod Overlap
pub mod Unfolding
pub mod Together
pub mod Asking
