-- ===== src/Tools.antt =====
-- The generic tool system (tools).
pub mod Definitions
pub mod Registry
pub mod Composite
pub mod Scrub
pub mod Ssrf
pub mod Core
