-- ===== src/Router.antt =====
-- message/router.go.
pub mod Defs
pub mod Handling
pub mod Settlement
pub mod Context
pub mod Middlewares
pub mod Registration
pub mod Decorating
pub mod DecoratorOrder
pub mod Running
pub mod HandlerStart
pub mod Startup
pub mod Lifecycle
