-- ===== src/Changes.antt =====
-- The RFC-ACDP-0018 change feed: crates/acdp-registry-store/src/changes.rs and change_bucket.rs, and the
-- feed of crates/acdp-registry-server/src/memory_ext.rs.
pub mod ChangeBucket
pub mod Feed
pub mod MemoryFeed
pub mod Since
pub mod Append
pub mod Cursor
pub mod Page
pub mod Serve
pub mod Tests
