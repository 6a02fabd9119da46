-- ===== src/Log.antt =====
-- apps/shell/src/main/logger.ts: the log file that is rotated.
pub mod Rotation
pub mod Bounds
pub mod Examples
