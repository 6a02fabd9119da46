-- ===== src/Update.antt =====
-- apps/shell/src/main/updater.ts and harness-updater.ts: the order of versions, the checks, the
-- update service and the exchange of the harness runtime.
pub mod Version
pub mod Order
pub mod Install
pub mod Rollback
pub mod Check
pub mod Names
pub mod Service
pub mod Runs
pub mod Examples
