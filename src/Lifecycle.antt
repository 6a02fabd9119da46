-- ===== src/Lifecycle.antt =====
-- apps/shell/src/main/lifecycle-manager.ts: the owner of the application's lifecycle.
pub mod Lock
pub mod Manager
pub mod Ownership
pub mod Budget
pub mod Shutdown
mod Examples
