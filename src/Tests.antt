-- ===== src/Tests.antt =====
-- Runs of the code at concrete inputs, one file for each part of the program.
pub mod Contract
pub mod Runtime
pub mod Loki
pub mod Config
pub mod Apidiff
pub mod Covercheck
pub mod Schema
pub mod Flags
pub mod Locators
pub mod Mcp
pub mod Calls
pub mod Deadcheck
pub mod McpServer
