-- ===== src/GoChannel/FanOut.antt =====
-- pubsub/gochannel/fanout.go. Run, Running, IsClosed and Subscribe are those of its router and of its
-- Pub/Sub, which is a publisher here.
use Prim.Native.String.{◌++◌}
use watermill.Prelude.{
  String, Option, none, some, List, [], lookup, insert, lookup-insert, eq_refl, if◌then◌else◌, ◌≡◌,
  refl, ap, sym, ◌∙◌,
}
use watermill.Go.{Err, Outcome, Result, Go}
use watermill.PubSub.{Publisher, Subscriber, passthrough_handler}
use watermill.Router.Defs.{Router, new_router, add_handler}

pub record FanOut (S : Type 0) : Type 0 where
  pub internal_pub_sub : Publisher S
  pub internal_router : Router S
  pub subscriber : Subscriber S
  pub subscribed_topics : List (String × Unit {0})

module _ {S : Type 0} where
  -- NewFanOut, with the Pub/Sub that it makes
  unfoldable pub new_fan_out : Publisher S → Option (Subscriber S) → Result (FanOut S)
  unfolding new_router
  new_fan_out pub_sub none = Result.fail (Err.new "missing subscriber")
  new_fan_out pub_sub (some subscriber) = Result.ok (record {
    internal_pub_sub = pub_sub;
    internal_router = new_router 0;
    subscriber = subscriber;
    subscribed_topics = [];
  })

  -- after AddHandler, which may panic
  unfoldable pub subscribe_after :
      String → FanOut S → Outcome (Unit {0}) × Router S → Outcome (Unit {0}) × FanOut S
  subscribe_after topic f (Outcome.done u, r) = (
    Outcome.done tt,
    record f { internal_router = r; subscribed_topics = insert topic tt f.subscribed_topics },
  )
  subscribe_after topic f (Outcome.panics e, r) =
      (Outcome.panics e, record f { internal_router = r })

  unfoldable pub unless_subscribed :
      String → FanOut S → Option (Unit {0}) → Outcome (Unit {0}) × FanOut S
  unfolding subscribe_after add_handler
  unless_subscribed topic f (some u) = (Outcome.done tt, f)
  unless_subscribed topic f none = subscribe_after topic f (
      add_handler ("fanout-" ++ topic) topic f.subscriber topic (some f.internal_pub_sub)
        passthrough_handler f.internal_router)

  -- FanOut.AddSubscription
  unfoldable pub add_subscription : String → Go (FanOut S) (Unit {0})
  unfolding unless_subscribed lookup
  add_subscription topic f = unless_subscribed topic f (lookup topic f.subscribed_topics)

  now_subscribed :
      (topic : String) (f g : FanOut S) (o : Option (Unit {0}))
      → lookup topic f.subscribed_topics ≡ o
      → unless_subscribed topic f o ≡ (Outcome.done tt, g)
      → lookup topic g.subscribed_topics ≡ some tt
  unfolding unless_subscribed subscribe_after
  now_subscribed topic f g (some tt) e h = ap (λ t. lookup topic t.1.subscribed_topics) (sym h) ∙ e
  now_subscribed topic f g none e h =
      after
        (add_handler ("fanout-" ++ topic) topic f.subscriber topic (some f.internal_pub_sub)
          passthrough_handler f.internal_router)
        h
    where
      after :
          (t : Outcome (Unit {0}) × Router S)
          → subscribe_after topic f t ≡ (Outcome.done tt, g)
          → lookup topic g.subscribed_topics ≡ some tt
      after (Outcome.done u, r) k =
          ap (λ t. lookup topic t.1.subscribed_topics) (sym k)
          ∙ lookup-insert topic topic tt f.subscribed_topics
          ∙ ap (λ b. if b then some tt else lookup topic f.subscribed_topics) (eq_refl topic)
      after (Outcome.panics p, r) k = cc

  -- AddSubscription is idempotent: after a call that did not panic, a second call for the topic does
  -- not panic either and changes nothing.
  pub add_subscription_idempotent :
      (topic : String) (f g : FanOut S)
      → add_subscription topic f ≡ (Outcome.done tt, g)
      → add_subscription topic g ≡ (Outcome.done tt, g)
  unfolding add_subscription unless_subscribed
  add_subscription_idempotent topic f g h =
      ap (λ o. unless_subscribed topic g o) (now_subscribed topic f g _ refl h)
