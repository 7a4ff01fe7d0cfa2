-- ===== src/Server.antt =====
-- The part of vishwakarma/server.py that is modelled.
pub mod Reaper
