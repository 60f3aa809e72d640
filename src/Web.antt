-- ===== src/Web.antt =====
-- internal/web
mod Tests
pub mod Pagination
pub mod RateLimit
pub mod TaskQueue
pub mod ServiceHub
pub mod SessionTokens
