-- ===== src/Storage.antt =====
-- The package vishwakarma/storage.
pub mod Dedup
pub mod Investigations
pub mod Patterns
pub mod ToolEffectiveness
pub mod Queries
pub mod Evidence
pub mod Runbooks
