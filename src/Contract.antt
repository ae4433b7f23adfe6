-- ===== src/Contract.antt =====
-- Package contract (contract/*.go): exit codes, output modes, error envelopes, the values that a
-- context carries, JSON output and warnings.
pub mod Mode
pub mod Json
pub mod Context
pub mod Errors
pub mod Warnings
pub mod Codes
