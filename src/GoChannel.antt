-- ===== src/GoChannel.antt =====
-- pubsub/gochannel.
pub mod Defs
pub mod Delivery
pub mod Copies
pub mod Redelivery
pub mod Counting
pub mod Sections
pub mod Registry
pub mod Delivering
pub mod FanOut
