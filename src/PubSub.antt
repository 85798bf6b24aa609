-- ===== src/PubSub.antt =====
-- message/pubsub.go, the function types of message/router.go, and message/decorator.go. What lies
-- behind a publisher or a subscriber is a parameter: any action on the world.
use watermill.Prelude.{ℕ, String, Option, none, some, List, [], ◌∷◌}
use watermill.Go.{Err, PanicValue, Result, Context, pure, panic, ◌>>=◌, ◌>>◌}
use watermill.Runtime.{M, for_each}

-- The name is what internal.StructName says of the value.
pub record Publisher (S : Type 0) : Type 0 where
  pub name : String
  pub publish : String → List ℕ → M S (Option Err)
  pub close : M S (Option Err)

-- A channel of messages: where they come from, and what is done to each on its way.
pub record Stream (S : Type 0) : Type 0 where
  pub source : ℕ
  pub deliver : ℕ → M S (Unit {0})

pub record Subscriber (S : Type 0) : Type 0 where
  pub name : String
  pub subscribe : Context → String → M S (Result (Stream S))
  pub close : M S (Option Err)

abbrev pub HandlerFunc : Type 0 → Type 0
HandlerFunc S = ℕ → M S (List ℕ × Option Err)

abbrev pub NoPublishHandlerFunc : Type 0 → Type 0
NoPublishHandlerFunc S = ℕ → M S (Option Err)

abbrev pub HandlerMiddleware : Type 0 → Type 0
HandlerMiddleware S = HandlerFunc S → HandlerFunc S

-- A nil publisher is `none`.
abbrev pub PublisherDecorator : Type 0 → Type 0
PublisherDecorator S = Option (Publisher S) → M S (Result (Option (Publisher S)))

abbrev pub SubscriberDecorator : Type 0 → Type 0
SubscriberDecorator S = Subscriber S → M S (Result (Subscriber S))

abbrev pub nil_dereference : PanicValue
nil_dereference = PanicValue.text "invalid memory address or nil pointer dereference"

module _ {S : Type 0} where
  -- PassthroughHandler
  unfoldable pub passthrough_handler : HandlerFunc S
  passthrough_handler msg = pure (msg ∷ [], none)

  -- a method call on an interface that may be nil
  unfoldable pub publish_by : Option (Publisher S) → String → List ℕ → M S (Option Err)
  publish_by none topic messages = panic nil_dereference
  publish_by (some p) topic messages = p.publish topic messages

  unfoldable pub close_by : Option (Publisher S) → M S (Option Err)
  close_by none = panic nil_dereference
  close_by (some p) = p.close

  -- messageTransformPublisherDecorator
  unfoldable pub transform_publisher : (ℕ → M S (Unit {0})) → Option (Publisher S) → Publisher S
  unfolding for_each publish_by close_by
  transform_publisher transform inner = record {
    name = "message.messageTransformPublisherDecorator";
    publish = λ topic messages. (do for_each transform messages; publish_by inner topic messages);
    close = close_by inner;
  }

  transform_stream : (ℕ → M S (Unit {0})) → Result (Stream S) → Result (Stream S)
  transform_stream transform (Result.fail e) = Result.fail e
  transform_stream transform (Result.ok st) =
      Result.ok (record st { deliver = λ msg. (do st.deliver msg; transform msg) })

  -- messageTransformSubscriberDecorator
  unfoldable pub transform_subscriber : (ℕ → M S (Unit {0})) → Subscriber S → Subscriber S
  unfolding transform_stream
  transform_subscriber transform sub = record {
    name = "message.messageTransformSubscriberDecorator";
    subscribe =
        λ ctx topic. (do st ← sub.subscribe ctx topic; pure (transform_stream transform st));
    close = sub.close;
  }

  -- MessageTransformSubscriberDecorator
  unfoldable pub message_transform_subscriber_decorator :
      Option (ℕ → M S (Unit {0})) → M S (SubscriberDecorator S)
  unfolding transform_subscriber
  message_transform_subscriber_decorator none = panic (PanicValue.text "transform function is nil")
  message_transform_subscriber_decorator (some transform) =
      pure λ sub. pure (Result.ok (transform_subscriber transform sub))

  -- MessageTransformPublisherDecorator
  unfoldable pub message_transform_publisher_decorator :
      Option (ℕ → M S (Unit {0})) → M S (PublisherDecorator S)
  unfolding transform_publisher
  message_transform_publisher_decorator none = panic (PanicValue.text "transform function is nil")
  message_transform_publisher_decorator (some transform) =
      pure λ inner. pure (Result.ok (some (transform_publisher transform inner)))
