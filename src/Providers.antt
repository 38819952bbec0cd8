-- ===== src/Providers.antt =====
-- The model providers (providers).
pub mod Registry
pub mod Keys
pub mod Models
pub mod OpenaiCompat
pub mod Anthropic
