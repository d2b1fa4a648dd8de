-- ===== src/RateLimit.antt =====
-- crates/acdp-registry-core/src/rate_limit.rs and crates/acdp-registry-store/src/rate_limit.rs: the
-- per-key and global budgets, and crates/acdp-registry-core/src/rate_limit_shared.rs before a shared one.
pub mod AgentLimiter
pub mod Layered
pub mod Tests
