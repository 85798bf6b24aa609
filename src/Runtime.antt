-- ===== src/Runtime.antt =====
-- The world in which handlers run, and laws of loops over messages.
mod Defs
pub mod Laws
pub use Defs.{World, M, end_context}
unfoldable pub use Defs.{
  update, on_message, read, alloc, ctx_err, add_running, done_running, with_cancel, cancel,
  set_metadata, get_metadata, message_context, set_message_context, ack_message, nack_message,
  for_each,
}
