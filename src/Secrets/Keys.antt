-- ===== src/Secrets/Keys.antt =====
-- apps/shell/src/main/secret-store.ts: which names the vault file can hold, and that it gives back what
-- was set.
pub mod Names
pub mod RoundTrip
