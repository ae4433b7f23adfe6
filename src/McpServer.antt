-- ===== src/McpServer.antt =====
-- The dispatch of MCP tool calls, of internal/mcpserver/dispatch.go: the error of a call (Errors),
-- the reset of the shared flags between calls (Flags), and the mapping of a call's arguments to the
-- argument vector (Arguments), and the whole of a call (Call).
pub mod Errors
pub mod Flags
pub mod Arguments
pub mod Prompts
pub mod Tools
pub mod Listing
pub mod Call
