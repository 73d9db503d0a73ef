-- ===== src/Storage.antt =====
-- libs/mail-storage: the SQLite tables and the repositories over them.
pub mod Records
pub mod Database
pub mod Rows
pub mod Actors
pub mod Messages
pub mod Users
pub mod Migrations
mod Tests
