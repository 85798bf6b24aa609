-- ===== src/Cqrs.antt =====
-- components/cqrs.
pub mod Defs
pub mod Buses
pub mod CommandProcessor
pub mod AddingCommands
pub mod EventProcessor
pub mod EventGroups
pub mod AddingEvents
pub mod GroupOrder
pub mod Settling
pub mod RoundTrip
pub mod Registering
pub mod Registered
pub mod Facade
