-- ===== src/Migrate.antt =====
-- The migration of keys: migrate/.
pub mod State
