-- ===== src/Smtp/Tests.antt =====
-- The theorems on the SMTP server, at concrete inputs.
mod Fixtures
mod Texts
mod Sessions
mod Storing
mod Queue
