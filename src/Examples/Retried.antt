-- ===== src/Examples/Retried.antt =====
-- The middleware Retry with a backoff that tries three times without waiting.
use watermill.Prelude.{
  int64, ◌+ℤ◌, ℕ, zero, suc, ℤ, pos, String, true, false, Option, none, some, List, [], ◌∷◌, ◌≡◌,
  refl,
}
use watermill.Go.{Err, Outcome, pure, ◌>>=◌}
use watermill.Runtime.{M, ctx_err, set_message_context}
use watermill.PubSub.{HandlerFunc}
use watermill.Middleware.Retry.{
  RetryConfig, Attempt, Backoff, retry, operation, unless_done, after_attempt, unless_refused,
  should_retry, on_retry, reset_context, unwrapped,
}
use watermill.Examples.Data.{Log, world, log}

-- the tries that are left after an attempt, where the errors that start so are permanent
inner_of : Err → Option Err
inner_of (Err.wrap e text) = some e
inner_of e = none

try_again : M Log (List ℕ × Option Err) → List ℕ × Option Err → M Log (List ℕ × Option Err)
unfolding inner_of
try_again rest (out, none) = pure (out, none)
try_again rest (out, some e) = elim (inner_of e) [ some i ↦ pure (out, some e) | none ↦ rest ]

tries : ℕ → (ℤ → M Log Attempt) → ℤ → M Log (List ℕ × Option Err)
unfolding try_again
tries zero op n = pure ([], some (Err.new "no tries"))
tries (suc zero) op n = do attempt ← op n; pure attempt.0
tries (suc (suc k)) op n = do attempt ← op n; try_again (tries (suc k) op attempt.1) attempt.0

abbrev three_tries : Backoff Log
unfolding tries inner_of
three_tries = record {
  retry = λ ctx op. tries 3 op (pos 0);
  next_back_off = pure (pos 1);
  permanent = λ e. Err.wrap e "permanent";
  as_permanent = inner_of;
}

logged : String → M Log (Unit {0})
logged text w = (Outcome.done tt, log text [] w)

-- fails until the world's log has three entries
result_for : Log → List ℕ × Option Err
result_for (a ∷ b ∷ c ∷ rest) = (7 ∷ [], none)
result_for entries = ([], some (Err.new "not yet"))

flaky : HandlerFunc Log
unfolding logged result_for
flaky msg w = (Outcome.done (result_for w.env), log "call" [] w)

abbrev patient : RetryConfig Log
unfolding logged
patient = record {
  on_retry_hook = some (λ n delay. logged "hook");
  should_retry = none;
  reset_context_on_retry = true;
}

abbrev refusing : RetryConfig Log
refusing = record patient { should_retry = some (λ params. pure false) }

-- The hook is called after the second failure, not after the first, and the third attempt succeeds.
patient_run : (retry three_tries patient flaky 0 world).0 ≡ Outcome.done (7 ∷ [], none)
unfolding flaky patient logged result_for three_tries tries try_again inner_of retry operation
    unless_done after_attempt unless_refused should_retry on_retry reset_context unwrapped ctx_err
    set_message_context int64 ◌+ℤ◌
patient_run = refl

patient_calls :
    (retry three_tries patient flaky 0 world).1.env
    ≡ ("call", []) ∷ ("hook", []) ∷ ("call", []) ∷ ("call", []) ∷ []
unfolding flaky patient logged result_for three_tries tries try_again inner_of retry operation
    unless_done after_attempt unless_refused should_retry on_retry reset_context unwrapped ctx_err
    set_message_context int64 ◌+ℤ◌
patient_calls = refl

-- Without a permission to retry, the error of the first attempt is returned as it was.
refused_run :
    (retry three_tries refusing flaky 0 world).0 ≡ Outcome.done ([], some (Err.new "not yet"))
unfolding flaky patient logged result_for three_tries tries try_again inner_of retry operation
    unless_done after_attempt unless_refused should_retry on_retry reset_context unwrapped ctx_err
    set_message_context int64 ◌+ℤ◌
refused_run = refl
