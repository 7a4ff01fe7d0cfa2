-- ===== src/Plugins.antt =====
-- The package vishwakarma/plugins.
pub mod Bash
