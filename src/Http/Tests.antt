-- ===== src/Http/Tests.antt =====
-- The theorems on the HTTP mail server, at a server with small stand-ins for the libraries.
pub mod Fixtures
mod Mailboxes
mod Accounts
mod Sending
