-- ===== src/Config.antt =====
-- internal/config: the configuration of the server, and the table that it is kept in.
mod Tests
mod RawTests
pub mod Types
pub mod Modes
pub mod Values
pub mod Settings
pub mod Flat
pub mod Raw
