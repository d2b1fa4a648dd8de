-- ===== src/Auth.antt =====
-- crates/acdp-registry-auth: challenges, tokens and their revocation.
pub mod Error
pub mod ChallengeStore
pub mod RevocationStore
pub mod RevocationPoller
pub mod Claims
pub mod Jwt
pub mod Keys
pub mod Service
pub mod Tests
