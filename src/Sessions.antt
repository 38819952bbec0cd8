-- ===== src/Sessions.antt =====
-- Saved conversations (sessions).
pub mod Store
