-- ===== src/Agent/Engine.antt =====
-- internal/agent/engine.go: what fits in the model's window, and the loop of `Process`.
mod Tests
pub mod Context
pub mod Events
pub mod Calls
pub mod Loop
