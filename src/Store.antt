-- ===== src/Store.antt =====
-- internal/store: the SQLite tables of users, groups and what belongs to them.
mod Tests
pub mod Db
pub mod Action
pub mod Groups
pub mod Users
pub mod Ips
pub mod Cookies
