-- ===== src/Middleware/Poison.antt =====
-- message/router/middleware: poison.go and ignore_errors.go. The texts that `Error()` gives, and
-- the cause that github.com/pkg/errors finds, are parameters.
use watermill.Prelude.{
  ℕ, String, Bool, true, ◌==◌, if◌then◌else◌, Option, none, some, List, [], ◌∷◌, Map, lookup,
  insert,
}
use watermill.Go.{Err, Result, Context, pure, ◌>>=◌, ◌>>◌}
use watermill.Runtime.{M, message_context, set_metadata}
use watermill.PubSub.{Publisher, HandlerMiddleware}
use watermill.Router.Handling.{
  subscribe_topic_from_ctx, handler_name_from_ctx, subscriber_name_from_ctx,
}

abbrev pub reason_for_poisoned_key : String
reason_for_poisoned_key = "reason_poisoned"

abbrev pub poisoned_topic_key : String
poisoned_topic_key = "topic_poisoned"

abbrev pub poisoned_handler_key : String
poisoned_handler_key = "handler_poisoned"

abbrev pub poisoned_subscriber_key : String
poisoned_subscriber_key = "subscriber_poisoned"

-- ErrInvalidPoisonQueueTopic
abbrev pub err_invalid_poison_queue_topic : Err
err_invalid_poison_queue_topic = Err.new "invalid poison queue topic"

-- struct poisonQueue
pub record PoisonQueue (S : Type 0) : Type 0 where
  pub topic : String
  pub publisher : Publisher S
  pub should_go_to_poison_queue : Err → Bool

module _ {S : Type 0} where
  -- PoisonQueueWithFilter
  unfoldable pub poison_queue_with_filter :
      Publisher S → String → (Err → Bool) → Result (PoisonQueue S)
  poison_queue_with_filter publisher topic should_go =
      if topic == ""
      then Result.fail err_invalid_poison_queue_topic
      else Result.ok
          (record { topic = topic; publisher = publisher; should_go_to_poison_queue = should_go })

  -- PoisonQueue
  unfoldable pub poison_queue : Publisher S → String → Result (PoisonQueue S)
  unfolding poison_queue_with_filter
  poison_queue publisher topic = poison_queue_with_filter publisher topic (λ _. true)

abbrev pub salvaged : List ℕ → Err → Option Err → List ℕ × Option Err
salvaged events err none = (events, none)
salvaged events err (some publish_err) =
    (events, some (Err.join err (Err.wrap publish_err "cannot publish message to poison queue")))

module _ {S : Type 0} where
  -- the part of publishPoisonMessage that reads the context of the message
  unfoldable pub publish_with_context : PoisonQueue S → ℕ → Context → M S (Option Err)
  publish_with_context pq msg ctx = do
    set_metadata msg poisoned_topic_key (subscribe_topic_from_ctx ctx)
    set_metadata msg poisoned_handler_key (handler_name_from_ctx ctx)
    set_metadata msg poisoned_subscriber_key (subscriber_name_from_ctx ctx)
    pq.publisher.publish pq.topic (msg ∷ [])

module _ {S : Type 0} (error_text : Err → String) where
  -- publishPoisonMessage, for an error that is not nil
  unfoldable pub publish_poison_message : PoisonQueue S → ℕ → Err → M S (Option Err)
  publish_poison_message pq msg err = do
    set_metadata msg reason_for_poisoned_key (error_text err)
    ctx ← message_context msg
    publish_with_context pq msg ctx

  -- the deferred function of the middleware; after a panic it has no error to look at
  unfoldable pub salvage : PoisonQueue S → ℕ → List ℕ × Option Err → M S (List ℕ × Option Err)
  salvage pq msg (events, none) = pure (events, none)
  salvage pq msg (events, some err) =
      if pq.should_go_to_poison_queue err
      then (do
        publish_err ← publish_poison_message pq msg err
        pure (salvaged events err publish_err))
      else pure (events, some err)

  -- poisonQueue.Middleware
  unfoldable pub poison_queue_middleware : PoisonQueue S → HandlerMiddleware S
  unfolding salvage
  poison_queue_middleware pq h msg = do out ← h msg; salvage pq msg out

module _ (error_text : Err → String) (cause : Err → Err) where
  -- the loop of NewIgnoreErrors
  unfoldable pub new_ignore_errors : List Err → Map (Unit {0}) → Map (Unit {0})
  unfolding insert
  new_ignore_errors [] errs_map = errs_map
  new_ignore_errors (err ∷ errs) errs_map =
      new_ignore_errors errs (insert (error_text err) tt errs_map)

  abbrev pub ignored : List ℕ → Err → Option (Unit {0}) → List ℕ × Option Err
  ignored events err (some _) = (events, none)
  ignored events err none = (events, some err)

  unfoldable pub after_ignoring : Map (Unit {0}) → List ℕ × Option Err → List ℕ × Option Err
  unfolding lookup
  after_ignoring ignored_errors (events, none) = (events, none)
  after_ignoring ignored_errors (events, some err) =
      ignored events err (lookup (error_text (cause err)) ignored_errors)

  -- IgnoreErrors.Middleware
  unfoldable pub ignore_errors : {S : Type 0} → Map (Unit {0}) → HandlerMiddleware S
  unfolding after_ignoring
  ignore_errors ignored_errors h msg = do out ← h msg; pure (after_ignoring ignored_errors out)
