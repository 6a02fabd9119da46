-- ===== src/Policy.antt =====
-- apps/shell/src/main/backend-state.ts and apps/shell/src/main/reasoning-policy.ts: what is shown of
-- a backend, and which reasoning efforts a model is offered.
pub mod Backend
pub mod Reasoning
mod Examples
