-- ===== src/Message.antt =====
-- package message: the message with its acknowledgements, metadata and content.
pub mod Headers
pub mod Defs
pub mod Ack
pub mod Content
pub mod Settlement
pub mod Equality
