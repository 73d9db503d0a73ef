-- ===== src/Smtp.antt =====
-- apps/smtp-server: the SMTP server.
pub mod Text
pub mod Base64
pub mod Config
pub mod AuthService
pub mod State
pub mod Store
pub mod Handler
pub mod Protocol
pub mod Session
pub mod Dispatcher
pub mod Server
mod Tests
