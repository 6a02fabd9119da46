-- ===== src/Mcp.antt =====
-- apps/shell/src/main/mcp-home.ts: the catalogue of MCP servers and the managed block of the patch file.
pub mod Patch
pub mod Search
pub mod Merge
pub mod Rows
pub mod Twice
pub mod Catalogue
pub mod Home
pub mod Flags
pub mod Toggle
pub mod Examples
