-- ===== src/Supervisor.antt =====
-- apps/shell/src/main/harness-supervisor.ts: the owner of the `dsh web` child process.
pub mod Output
pub mod State
pub mod Env
pub mod Control
pub mod Calls
pub mod Machine
pub mod Ready
pub mod Invariant
pub mod Down
pub mod Respawn
pub mod Exits
pub mod Crashes
pub mod Environment
mod Examples
