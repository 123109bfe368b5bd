-- ===== src/Hive.antt =====
-- jquery.hive.js: the registry of worker threads behind `jQuery.Hive`.
pub mod Defs
pub mod Registry
mod Create
pub mod Messages
mod Tests
pub use Defs.*
