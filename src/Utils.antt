-- ===== src/Utils.antt =====
-- The package vishwakarma/utils.
pub mod Cache
