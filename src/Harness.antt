-- ===== src/Harness.antt =====
-- The shared types and errors of the harness boundary (harness/types.go, harness/errors.go).
pub mod Errors
pub mod Types
pub mod StreamStore
