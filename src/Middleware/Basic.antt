-- ===== src/Middleware/Basic.antt =====
-- message/router/middleware: duplicator.go, timeout.go, instant_ack.go, recoverer.go, throttle.go,
-- circuit_breaker.go and randomfail.go.
use watermill.Prelude.{
  true, false, ℕ, ◌/◌, ◌=ℕ◌, Bool, if◌then◌else◌, Option, none, some, List, [], ◌++◌,
}
use watermill.Go.{Err, PanicValue, Outcome, pure, panic, ◌>>=◌, ◌>>◌, defer_call}
use watermill.Runtime.{M, with_cancel, cancel, message_context, set_message_context, ack_message}
use watermill.PubSub.{HandlerFunc, HandlerMiddleware}

or_nil : Option (List ℕ) → List ℕ
or_nil none = []
or_nil (some out) = out

-- what Duplicator returns after its second call
both : List ℕ → List ℕ × Option Err → List ℕ × Option Err
both first (second, some e) = ([], some e)
both first (second, none) = (first ++ second, none)

-- the named results of Recoverer, which stay nil when the handler function panics
results : Outcome (List ℕ × Option Err) → List ℕ × Option Err
results (Outcome.done out) = out
results (Outcome.panics p) = ([], none)

-- the flag `panicked`, and what recover returns: for a panic, never nil
has_panicked : Outcome (List ℕ × Option Err) → Bool
has_panicked (Outcome.done out) = false
has_panicked (Outcome.panics p) = true

panicked_value : Outcome (List ℕ × Option Err) → Option PanicValue
panicked_value (Outcome.done out) = none
panicked_value (Outcome.panics p) = some p

-- the deferred function of Recoverer
unfoldable pub recovered_by : Option PanicValue → Bool → List ℕ × Option Err → List ℕ × Option Err
recovered_by (some r) panicked (events, err) =
    (events, some (Err.with_stack (Err.recovered_panic r)))
recovered_by none true (events, err) =
    (events, some (Err.with_stack (Err.recovered_panic PanicValue.nothing)))
recovered_by none false out = out

module _ {S : Type 0} where
  second_run : HandlerFunc S → ℕ → List ℕ × Option Err → M S (List ℕ × Option Err)
  second_run h msg (first, some e) = pure ([], some e)
  second_run h msg (first, none) = do out ← h msg; pure (both first out)

  -- Duplicator
  unfoldable pub duplicator : HandlerMiddleware S
  unfolding second_run both
  duplicator h msg = do out ← h msg; second_run h msg out

  -- Timeout; when the deadline passes is the world's to say (Runtime)
  unfoldable pub timeout : HandlerMiddleware S
  timeout h msg = do
    outer ← message_context msg
    ctx ← with_cancel outer
    defer_call (cancel ctx) (do set_message_context ctx msg; h msg)

  -- InstantAck
  unfoldable pub instant_ack : HandlerMiddleware S
  instant_ack h msg = do ack_message msg; h msg

  -- Recoverer; the stack trace is left out
  unfoldable pub recoverer : HandlerMiddleware S
  unfolding recovered_by results panicked_value has_panicked
  recoverer h msg w =
      let (out, w') = h msg w in
      (Outcome.done (recovered_by (panicked_value out) (has_panicked out) (results out)), w')

  -- Throttle.Middleware; `tick` waits on the ticker's channel
  unfoldable pub throttle : M S (Unit {0}) → HandlerMiddleware S
  throttle tick h msg = do tick; h msg

  -- CircuitBreaker.Middleware; `execute` is gobreaker's Execute, whose result is nil if the
  -- handler function has not been called
  unfoldable pub circuit_breaker :
      (M S (List ℕ × Option Err) → M S (Option (List ℕ) × Option Err)) → HandlerMiddleware S
  unfolding or_nil
  circuit_breaker execute h msg = do (out, err) ← execute (h msg); pure (or_nil out, err)

  -- RandomFail and RandomPanic; `should_fail` draws a random number
  unfoldable pub random_fail : M S Bool → HandlerMiddleware S
  random_fail should_fail h msg = do
    fails ← should_fail
    if fails then pure ([], some (Err.new "random fail occurred")) else h msg

  unfoldable pub random_panic : M S Bool → HandlerMiddleware S
  random_panic should_fail h msg = do
    panics ← should_fail
    if panics then panic (PanicValue.text "random panic occurred") else h msg

-- NewThrottle: the period of its ticker
unfoldable pub throttle_period : ℕ → ℕ → Outcome ℕ
throttle_period count duration =
    if count =ℕ 0
    then Outcome.panics (PanicValue.text "integer divide by zero")
    else if duration / count =ℕ 0
    then Outcome.panics (PanicValue.text "non-positive interval for NewTicker")
    else Outcome.done (duration / count)
