-- ===== src/Components.antt =====
-- components and internal/publisher: what is built on publishers and subscribers.
pub mod Forwarder
pub mod Forwarding
pub mod Delaying
pub mod DelayedOnly
pub mod RetryPublisher
pub mod Retrying
pub mod Requeuer
pub mod FanIn
pub mod FanningIn
