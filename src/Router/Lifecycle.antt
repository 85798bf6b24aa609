-- ===== src/Router/Lifecycle.antt =====
-- The life of a router, from message/router.go: Close, Run, Handler.Stop, the goroutines of a handler
-- and the watcher of stopped handlers, interleaved.
pub mod Defs
pub mod Steps
pub mod Invariant
pub mod Moves
pub mod Preserved
pub mod Safety
pub mod Returning
pub mod Leaving
pub mod Progress
