-- ===== src/Go.antt =====
-- What the program uses of Go: errors, panics and deferred calls, channels that are only closed,
-- and contexts. A statement list that mutates a state and may panic is a `Go`; what was written
-- before a panic stays written.
mod Errors
mod Contexts
mod Effects
pub use Errors.{Err, PanicValue, join_err}
pub use Contexts.{CtxKey, CtxValue, Context, Delay}
unfoldable pub use Contexts.{CtxKey-discrete, ctx_value, text_value}
pub use Effects.{
  Outcome, Result, Chan, Go, pure, panic, resume, ◌>>=◌, >>=-done, >>=_parts, ◌>>◌, gets, modify,
  defer_call, on_panic, recover_by,
}
unfoldable pub use Effects.{close_chan}
