-- ===== src/RequestReply.antt =====
-- components/requestreply.
pub mod Defs
pub mod Backend
pub mod Replies
pub mod Notifying
pub mod RoundTrip
