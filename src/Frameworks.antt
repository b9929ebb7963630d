-- ===== src/Frameworks.antt =====
-- The helpers for frameworks: lib/vite.ts, lib/next.ts and lib/react.ts.
pub mod ViteConfig
pub mod SshConnection
pub mod NextConfig
pub mod SshInit
pub mod VueInit
pub mod Rendering
