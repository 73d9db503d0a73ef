-- ===== src/Desktop.antt =====
-- The models of the mail client, apps/mail-client.
pub mod Pages
pub mod CurrentUser
pub mod Accounts
pub mod Cache
pub mod MailCache
mod Tests
