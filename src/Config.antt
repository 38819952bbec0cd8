-- ===== src/Config.antt =====
-- The configuration of an application (config) and its editions (edition).
pub mod Discovery
pub mod Store
pub mod Edition
