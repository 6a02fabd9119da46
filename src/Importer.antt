-- ===== src/Importer.antt =====
-- packages/chat-importer/src/index.ts and markers.ts: the import of chats from other agents, once each.
pub mod Chats
pub mod Once
mod Examples
