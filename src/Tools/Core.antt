-- ===== src/Tools/Core.antt =====
-- tools/core: the tools that come with the harness.
pub mod Exec
pub mod Filesystem
pub mod KnowledgeGraph
pub mod Memory
pub mod Tasks
pub mod WebFetch
