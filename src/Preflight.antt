-- ===== src/Preflight.antt =====
-- apps/shell/src/main/preflight.ts: the layout of the runtime is verified before it is started.
pub mod Layout
pub mod Retry
pub mod Verdict
pub mod Lines
pub mod Examples
