-- ===== src/Middleware/Retry.antt =====
-- message/router/middleware/retry.go. The loop of github.com/cenkalti/backoff is a parameter, with its
-- options; the logger is left out.
use watermill.Prelude.{
  ℕ, ℤ, pos, ◌+ℤ◌, int64, ltb_ℤ, Bool, true, false, if◌then◌else◌, Option, none, some, List, [],
}
use watermill.Go.{Err, Context, pure, gets, ◌>>=◌, ◌>>◌}
use watermill.Runtime.{M, ctx_err, message_context, set_message_context}
use watermill.PubSub.{HandlerFunc, HandlerMiddleware}

-- RetryParams
pub record RetryParams : Type 0 where
  pub err : Err
  pub retry_num : ℤ
  pub delay : ℤ

-- Retry without what it only passes on to the backoff
pub record RetryConfig (S : Type 0) : Type 0 where
  pub on_retry_hook : Option (ℤ → ℤ → M S (Unit {0}))
  pub should_retry : Option (RetryParams → M S Bool)
  pub reset_context_on_retry : Bool

-- one attempt: what it produced, its error, and retryNum, which the attempts share
abbrev pub Attempt : Type 0
Attempt = (List ℕ × Option Err) × ℤ

-- backoff: the retries of an operation under a context, with the options of the middleware; the next
-- delay; Permanent; and errors.As for *PermanentError with Unwrap
pub record Backoff (S : Type 0) : Type 0 where
  pub retry : Context → (ℤ → M S Attempt) → M S (List ℕ × Option Err)
  pub next_back_off : M S ℤ
  pub permanent : Err → Err
  pub as_permanent : Err → Option Err

module _ {S : Type 0} (b : Backoff S) (r : RetryConfig S) where
  -- the answer of ShouldRetry, or true without one
  unfoldable pub should_retry : ℤ → Err → M S Bool
  should_retry retry_num err = elim r.should_retry [
    | none ↦ pure true
    | some f ↦ (do
      delay ← b.next_back_off
      f (record { err = err; retry_num = retry_num; delay = delay }))
  ]

  -- OnRetryHook, on a retry
  unfoldable pub on_retry : ℤ → M S (Unit {0})
  on_retry retry_num = elim r.on_retry_hook [
    | none ↦ pure tt
    | some f ↦
        if ltb_ℤ (pos 0) retry_num then (do delay ← b.next_back_off; f retry_num delay) else pure tt
  ]

  unfoldable pub unless_refused : ℤ → List ℕ → Err → Bool → M S Attempt
  unfolding on_retry
  unless_refused retry_num out err false = pure ((out, some (b.permanent err)), retry_num)
  unless_refused retry_num out err true = do
    on_retry retry_num
    pure ((out, some err), int64 (retry_num +ℤ pos 1))

  unfoldable pub after_attempt : ℤ → List ℕ × Option Err → M S Attempt
  unfolding should_retry unless_refused
  after_attempt retry_num (out, none) = pure ((out, none), retry_num)
  after_attempt retry_num (out, some err) = do
    again ← should_retry retry_num err
    unless_refused retry_num out err again

  unfoldable pub reset_context : Context → ℕ → M S (Unit {0})
  unfolding set_message_context
  reset_context ctx msg = if r.reset_context_on_retry then set_message_context ctx msg else pure tt

  unfoldable pub unless_done : HandlerFunc S → ℕ → Context → ℤ → Option Err → M S Attempt
  unfolding reset_context after_attempt
  unless_done h msg ctx retry_num (some e) = pure (([], some e), retry_num)
  unless_done h msg ctx retry_num none = do
    reset_context ctx msg
    out ← h msg
    after_attempt retry_num out

  -- the operation that is retried
  unfoldable pub operation : HandlerFunc S → ℕ → Context → ℤ → M S Attempt
  unfolding ctx_err unless_done
  operation h msg ctx retry_num = do
    done ← gets (λ w. ctx_err w ctx)
    unless_done h msg ctx retry_num done

  -- the error of backoff.Retry without a PermanentError around it
  unfoldable pub unwrapped : List ℕ × Option Err → List ℕ × Option Err
  unwrapped (out, none) = (out, none)
  unwrapped (out, some e) = elim (b.as_permanent e) [
    | none ↦ (out, some e)
    | some inner ↦ (out, some inner)
  ]

  -- Retry.Middleware
  unfoldable pub retry : HandlerMiddleware S
  unfolding message_context operation unwrapped
  retry h msg = do
    ctx ← message_context msg
    out ← b.retry ctx (operation h msg ctx)
    pure (unwrapped out)
