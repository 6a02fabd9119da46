-- ===== src/Browser.antt =====
-- apps/shell/src/main/embedded-browser.ts: the tabs of the embedded browser.
pub mod Address
pub mod Tabs
pub mod Active
pub mod Invariant
pub mod Restore
pub mod Examples
