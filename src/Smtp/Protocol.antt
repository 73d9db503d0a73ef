-- ===== src/Smtp/Protocol.antt =====
-- What holds of a session, event after event.
pub mod Invariant
pub mod Transaction
pub mod Auth
pub mod Keeps
pub mod Conversation
pub mod Body
pub mod Envelope
pub mod Transfer
