-- ===== src/Examples/Fanned.antt =====
-- The theorem on the fan-out at one topic.
use watermill.Prelude.{[], ◌≡◌, refl, lookup}
use watermill.Go.{Outcome}
use watermill.Router.Defs.{new_router, add_handler}
use watermill.GoChannel.FanOut.{
  FanOut, add_subscription, unless_subscribed, subscribe_after, add_subscription_idempotent,
}
use watermill.Examples.Data.{Log, recorder, silent}

abbrev fan_out : FanOut Log
fan_out = record {
  internal_pub_sub = recorder;
  internal_router = new_router 0;
  subscriber = silent;
  subscribed_topics = [];
}

abbrev subscribed_once : FanOut Log
subscribed_once = (add_subscription "t" fan_out).1

add_subscription_idempotent_example :
    add_subscription "t" subscribed_once ≡ (Outcome.done tt, subscribed_once)
unfolding add_subscription unless_subscribed subscribe_after add_handler new_router lookup
add_subscription_idempotent_example = add_subscription_idempotent "t" fan_out subscribed_once refl
