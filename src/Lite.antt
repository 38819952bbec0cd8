-- ===== src/Lite.antt =====
-- The Lite edition's implementations of the harness interfaces (harness/lite).
pub mod AgentStore
pub mod ToolRegistry
pub mod Runner
pub mod SecretStore
pub mod ChannelRouter
pub mod SkillStore
pub mod ArtifactStore
