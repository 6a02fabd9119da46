-- ===== src/Dialog.antt =====
-- apps/shell/src/main/dialog-bridge.ts: the loopback bridge to Electron's dialogs.
pub mod Bridge
pub mod Guards
pub mod Examples
