-- ===== src/Apidiff.antt =====
-- The gate on the public API, of internal/cmd/apidiff-verdict/main.go: a finding of go-apidiff
-- (Finding), the report and the verdict on it (Report), the rendered summary (Render), and the check
-- of the list of public packages (Allowlist).
pub mod Finding
pub mod Report
pub mod Render
pub mod Allowlist
