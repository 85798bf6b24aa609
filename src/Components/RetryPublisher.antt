-- ===== src/Components/RetryPublisher.antt =====
-- internal/publisher: retry.go and errors.go. Durations are in nanoseconds; logging is left out.
use watermill.Prelude.{
  ℕ, zero, suc, ◌*◌, ◌%◌, ◌^◌, ℤ, pos, negsuc, String, Bool, true, false, if◌then◌else◌, Option,
  none, some, List, [], ◌∷◌, Map, insert,
}
use watermill.Go.{Err, Result, pure, ◌>>=◌, ◌>>◌}
use watermill.Runtime.{M, read}
use watermill.PubSub.{Publisher}

-- struct RetryPublisherConfig, without its logger
pub record RetryPublisherConfig : Type 0 where
  pub max_retries : ℤ
  pub time_to_first_retry : ℤ

abbrev pub second : ℕ
second = 1000000000

or_if_zero : ℕ → ℤ → ℤ
or_if_zero d (pos zero) = pos d
or_if_zero d n = n

-- setDefaults
unfoldable pub set_defaults : RetryPublisherConfig → RetryPublisherConfig
unfolding or_if_zero
set_defaults c = record {
  max_retries = or_if_zero 5 c.max_retries;
  time_to_first_retry = or_if_zero second c.time_to_first_retry;
}

not_positive : ℤ → Bool
not_positive (pos (suc n)) = false
not_positive _ = true

-- validate
unfoldable pub validate : RetryPublisherConfig → Option Err
unfolding not_positive
validate c =
    if not_positive c.max_retries
    then some (Err.new "number of retries should be positive")
    else if not_positive c.time_to_first_retry
    then some (Err.new "time to first retry should be positive")
    else none

-- struct RetryPublisher, after its validation
pub record RetryPublisher (S : Type 0) : Type 0 where
  pub publisher : Publisher S
  pub config : RetryPublisherConfig

checked {ℓ} : {A : Type ℓ} → Option Err → A → Result A
checked none a = Result.ok a
checked (some err) a = Result.fail (Err.wrap err "invalid RetryPublisher config")

-- NewRetryPublisher
unfoldable pub new_retry_publisher :
    {S : Type 0} → Publisher S → RetryPublisherConfig → Result (RetryPublisher S)
unfolding checked validate set_defaults
new_retry_publisher p config =
    let c = set_defaults config in checked (validate c) (record { publisher = p; config = c })

-- the number of turns of a loop `for i := 0; i < n; i++`
abbrev pub turns : ℤ → ℕ
turns (pos n) = n
turns (negsuc n) = 0

-- d *= 2 on the 64 bits of a Duration
abbrev pub doubled : ℕ → ℕ
doubled d = d * 2 % 2 ^ 64

abbrev pub sleep_time : ℤ → ℕ
sleep_time (pos n) = n
sleep_time (negsuc n) = 0

-- addMsg: the reasons of ErrCouldNotPublish are by UUID
unfoldable pub add_reason : Option Err → String → Map Err → Map Err
unfolding insert
add_reason none uuid reasons = reasons
add_reason (some err) uuid reasons = insert uuid err reasons

-- the error that Publish returns, if there are reasons
abbrev pub if_any : Map Err → Option (Map Err)
if_any [] = none
if_any (r ∷ reasons) = some (r ∷ reasons)

module _ {S : Type 0} (sleep : ℕ → M S (Unit {0})) where
  abbrev pub after_attempt : ℕ → Option Err → (Option Err → M S (Option Err)) → M S (Option Err)
  after_attempt time_to_next none again = pure none
  after_attempt time_to_next (some err) again = do sleep time_to_next; again (some err)

  -- the loop of send, with the turns that are left, the next sleep, and the error of the turn before
  unfoldable pub send_loop : Publisher S → String → ℕ → ℕ → ℕ → Option Err → M S (Option Err)
  send_loop p topic msg zero time_to_next err = pure err
  send_loop p topic msg (suc n) time_to_next err = do
    result ← p.publish topic (msg ∷ [])
    after_attempt time_to_next result (send_loop p topic msg n (doubled time_to_next))

  -- send
  unfoldable pub send : RetryPublisher S → String → ℕ → M S (Option Err)
  unfolding send_loop
  send r topic msg =
      send_loop r.publisher topic msg (turns r.config.max_retries)
        (sleep_time r.config.time_to_first_retry) none

  -- the loop of Publish
  unfoldable pub publish_loop : RetryPublisher S → String → List ℕ → Map Err → M S (Map Err)
  unfolding send add_reason read
  publish_loop r topic [] reasons = pure reasons
  publish_loop r topic (msg ∷ msgs) reasons = do
    err ← send r topic msg
    uuid ← read msg (λ m. m.uuid)
    publish_loop r topic msgs (add_reason err uuid reasons)

  -- Publish
  unfoldable pub publish : RetryPublisher S → String → List ℕ → M S (Option (Map Err))
  unfolding publish_loop
  publish r topic messages = do reasons ← publish_loop r topic messages []; pure (if_any reasons)

  -- Close
  unfoldable pub close : RetryPublisher S → M S (Option Err)
  close r = r.publisher.close
