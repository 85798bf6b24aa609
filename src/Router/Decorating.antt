-- ===== src/Router/Decorating.antt =====
-- message/router.go: decorateHandlerPublisher and decorateHandlerSubscriber, up to their write
-- into the handler (Router/Running).
use watermill.Prelude.{String, Option, some, List, [], ◌∷◌}
use mathlib.Core.List.{reverse}
use watermill.Go.{Err, Result, pure, ◌>>=◌}
use watermill.Runtime.{M}
use watermill.PubSub.{
  Publisher, Subscriber, PublisherDecorator, SubscriberDecorator,
  message_transform_subscriber_decorator,
}
use watermill.Router.Defs.{Router, Handler}
use watermill.Router.Handling.{add_context}

module _ {S : Type 0} where
  -- the next round of a loop of decorators, or its early return
  abbrev pub decorated : {A : Type 0} → String → Result A → (A → M S (Result A)) → M S (Result A)
  decorated msg (Result.ok a) next = next a
  decorated msg (Result.fail e) next = pure (Result.fail (Err.wrap e msg))

  unfoldable pub publisher_loop :
      List (PublisherDecorator S) → Option (Publisher S) → M S (Result (Option (Publisher S)))
  publisher_loop [] p = pure (Result.ok p)
  publisher_loop (d ∷ ds) p = do
    out ← d p
    decorated "could not apply publisher decorator" out (publisher_loop ds)

  -- decorateHandlerPublisher, up to its write into the handler
  unfoldable pub decorate_handler_publisher :
      Router S → Handler S → M S (Result (Option (Publisher S)))
  unfolding publisher_loop
  decorate_handler_publisher r h = publisher_loop (reverse r.publisher_decorators) h.publisher

  unfoldable pub subscriber_loop :
      List (SubscriberDecorator S) → Subscriber S → M S (Result (Subscriber S))
  subscriber_loop [] sub = pure (Result.ok sub)
  subscriber_loop (d ∷ ds) sub = do
    out ← d sub
    decorated "could not apply subscriber decorator" out (subscriber_loop ds)

  -- decorateHandlerSubscriber, up to its write: first the handler's context is put into the
  -- messages, then the decorators follow in order
  unfoldable pub decorate_handler_subscriber : Router S → Handler S → M S (Result (Subscriber S))
  unfolding subscriber_loop
  decorate_handler_subscriber r h = do
    context_decorator ← message_transform_subscriber_decorator (some (add_context h))
    out ← context_decorator h.subscriber
    decorated "cannot wrap subscriber with context decorator" out
        (subscriber_loop r.subscriber_decorators)
