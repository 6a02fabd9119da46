-- ===== src/Readiness.antt =====
-- apps/shell/src/main/mcp-readiness.ts: the record of the calls to MCP servers and of their tools.
pub mod Tracker
pub mod Bounds
pub mod Queries
pub mod Rosters
mod Examples
