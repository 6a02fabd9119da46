-- ===== src/Git.antt =====
-- apps/shell/src/git/git-resolver.ts: which git is used, how its failures are classed, and what a
-- validation and a command report.
pub mod Resolver
pub mod Commands
pub mod Cache
pub mod Found
pub mod Reports
pub mod Examples
