-- ===== src/Runtime.antt =====
-- The root package's command runtime: guarded side effects, confirmation, version resolution, and
-- the lifecycle of Execute.
pub mod Guard
pub mod Flagged
pub mod Confirm
pub mod Version
pub mod Execute
