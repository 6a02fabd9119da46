-- ===== src/Secrets.antt =====
-- apps/shell/src/main/secret-store.ts: the vault file, the choice of a store, and what is asked of one.
pub mod Xor
pub mod Vault
pub mod Keys
pub mod Store
pub mod Examples
