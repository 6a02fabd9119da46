-- ===== src/Pool.antt =====
-- packages/opencode-adapter/src/pool.ts: the pool of opencode2api workers.
pub mod State
pub mod Select
pub mod Spawn
pub mod Control
pub mod Events
pub mod Quiet
pub mod Invariant
pub mod Ownership
pub mod Launches
pub mod Rotation
pub mod Respawn
pub mod Races
mod Examples
