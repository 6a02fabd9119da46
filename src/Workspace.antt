-- ===== src/Workspace.antt =====
-- packages/workspace-bridge/src: the chats of a folder, and going on with one of them in the harness.
pub mod Folder
pub mod Sorted
pub mod Roots
pub mod Recent
pub mod Continue
pub mod Handoff
pub mod Examples
