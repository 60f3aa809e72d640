-- ===== src/Util.antt =====
-- internal/util/util.go
pub mod Tree
mod Tests
