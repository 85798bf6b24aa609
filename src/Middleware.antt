-- ===== src/Middleware.antt =====
-- message/router/middleware.
pub mod Basic
pub mod Correlation
pub mod CorrelationSpread
pub mod Retry
pub mod Poison
pub mod PoisonPublishes
pub mod Guards
pub mod Filters
pub mod Dedup
pub mod DedupWindow
