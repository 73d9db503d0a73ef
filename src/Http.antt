-- ===== src/Http.antt =====
-- The HTTP mail server of apps/mail-server.
pub mod Json
pub mod Config
pub mod Message
pub mod Router
pub mod World
pub mod MailStorage
pub mod Handlers
pub mod Acts
pub mod Runs
pub mod Mailboxes
mod Tests
