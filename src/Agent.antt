-- ===== src/Agent.antt =====
-- internal/agent: the messages of a session, their compaction and their files.
mod Tests
pub mod Messages
pub mod Compactor
pub mod Sessions
pub mod Tools
pub mod Engine
