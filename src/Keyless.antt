-- ===== src/Keyless.antt =====
-- crates/acdp-registry-core/src/keyless: the issuers' keys and the check of a workload token.
pub mod Types
pub mod Jwks
pub mod Sdk
pub mod Header
pub mod SigningKey
pub mod Claims
pub mod Token
pub mod Tests
