-- ===== src/Models.antt =====
-- apps/shell/src/main/model-refresher.ts and provider-seeder.ts: the model catalogue, and what is
-- written into the provider settings.
pub mod Settings
pub mod Probe
pub mod Refresh
pub mod Sync
pub mod Seed
pub mod Normal
pub mod Idempotence
pub mod Examples
