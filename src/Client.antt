-- ===== src/Client.antt =====
-- libs/smtp-server-sdk: the client of an SMTP server.
pub mod Mail
pub mod Wire
pub mod Send
pub mod Dialogue
mod Tests
