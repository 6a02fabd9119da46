-- ===== src/TorFleet.antt =====
-- apps/shell/src/main/torfleet.ts: the fleet of Tor processes.
pub mod Ports
pub mod Fleet
pub mod Allocation
mod Examples
