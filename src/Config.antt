-- ===== src/Config.antt =====
-- Reading configuration: the bounded read of internal/config/config.go (Read), the options and the
-- error mapping of config/config.go (Parse), and the atomic write of a patched file (Atomic).
pub mod Read
pub mod Atomic
pub mod Parse
