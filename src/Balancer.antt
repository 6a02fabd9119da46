-- ===== src/Balancer.antt =====
-- packages/opencode-adapter/src/lb.ts: the load balancer before the pool.
pub mod Interface
pub mod State
pub mod Sticky
pub mod RateLimit
pub mod Http
pub mod Handler
pub mod Retry
pub mod Answers
pub mod Bodies
pub mod Affinity
pub mod Rated
pub mod Alarm
mod Examples
