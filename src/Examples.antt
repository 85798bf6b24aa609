-- ===== src/Examples.antt =====
-- Concrete messages, publishers and routers, and the theorems applied to them.
pub mod Data
mod Messages
mod Routing
mod Middlewares
mod Channels
mod Forwarders
pub mod Lifecycles
pub mod Commands
pub mod Replies
pub mod Requeued
pub mod Retried
pub mod Fanning
pub mod Fanned
