-- ===== src/Examples/Channels.antt =====
-- The theorems on gochannel at a Pub/Sub with one subscriber.
use watermill.Prelude.{
  map, List, inr, true, false, not, [], ◌∷◌, All, ◌≡◌, ◌≢◌, refl, lookup, insert, arith,
}
use watermill.Go.{Outcome, Result, Context, Chan, PanicValue, close_chan}
use watermill.GoChannel.Defs.{
  Config, GoChannel, new_go_channel, subscribe, unsubscribe, begin_publish, begin_close, end_close,
  publish_copies, replayed, topic_subscribers, load_or_store, add_subscriber,
}
use watermill.GoChannel.Sections.Leaving.{IsThere}
use watermill.GoChannel.Registry.{
  Step, Reachable, OneLess, unsubscribe_removes, subscribe_joins, begin_close_returns,
}
use watermill.GoChannel.Delivering.{Later, StoresMore, CopiesOf, publish_delivers}
use watermill.GoChannel.Delivery
use watermill.GoChannel.Delivery.{Subscriber, Delivery, msg_to_send, send_on}
use watermill.GoChannel.Copies.{Agrees, Ended, IsCopy}
use watermill.GoChannel.Redelivery.{delivered_until_ack}
use watermill.Examples.Data.{plain}
use watermill.Message.Defs.{Message}

abbrev config : Config
config = record {
  persistent = true;
  block_publish_until_subscriber_ack = false;
  preserve_context = false;
}

abbrev fresh : GoChannel
fresh = new_go_channel config

abbrev joined : GoChannel
joined = (subscribe "t" 7 fresh).1

joined-Reachable : Reachable config joined
joined-Reachable =
    Reachable.next config fresh joined (Reachable.start config) (Step.subscribes "t" 7 fresh)

joined-IsThere : IsThere 7 "t" joined
unfolding new_go_channel subscribe load_or_store add_subscriber topic_subscribers lookup insert
joined-IsThere = ground arith

unsubscribe_removes_example :
    (g' : GoChannel) × (unsubscribe "t" 7 joined ≡ (Outcome.done tt, g')) × OneLess "t" 7 joined g'
unsubscribe_removes_example =
    unsubscribe_removes config joined "t" 7 joined-Reachable joined-IsThere

publish_delivers_example :
    (copies : List Message) × (g'' : GoChannel) × (begin_publish (plain ∷ []) joined
      ≡ Result.ok copies)
    × CopiesOf joined.config (plain ∷ []) copies
    × (publish_copies "t" copies (subscribe "u" 9 joined).1 ≡ (
      Outcome.done (map (λ m. (m, topic_subscribers (subscribe "u" 9 joined).1 "t")) copies),
      g'',
    ))
    × StoresMore "t" copies (subscribe "u" 9 joined).1 g''
    × (g''.subscribers ≡ (subscribe "u" 9 joined).1.subscribers)
unfolding subscribe load_or_store add_subscriber new_go_channel
publish_delivers_example =
    publish_delivers config joined (subscribe "u" 9 joined).1 "t" (plain ∷ []) (tt, tt)
      joined-Reachable refl (Later.after Later.at_once (Step.subscribes "u" 9 joined)) (inr refl)

subscribe_joins_example :
    (g' : GoChannel) × (subscribe "t" 8 fresh ≡ (Outcome.done (Result.ok (replayed "t" fresh)), g'))
    × OneLess "t" 8 g' fresh
unfolding new_go_channel
subscribe_joins_example = subscribe_joins config fresh "t" 8 (Reachable.start config) refl

begin_close_returns_example :
    ((begin_close joined).0 ≡ Outcome.done (not joined.closed))
    × ((begin_close joined).1.closed ≡ true)
begin_close_returns_example = begin_close_returns config joined joined-Reachable

abbrev subscriber : Subscriber
subscriber = record {
  ctx = Context.background;
  closed = false;
  closing = Chan.open_chan;
  output_channel = Chan.open_chan;
  sent = [];
  preserve_context = false;
}

abbrev sent_once : Subscriber
sent_once = record subscriber { sent = msg_to_send 0 subscriber plain ∷ [] }

sent_once-Reachable :
    Delivery.Reachable 0 plain subscriber sent_once
      (Delivery.waiting (msg_to_send 0 subscriber plain))
unfolding send_on
sent_once-Reachable =
    Delivery.Reachable.next subscriber sent_once Delivery.holding
      (Delivery.waiting (msg_to_send 0 subscriber plain))
      (Delivery.Reachable.next subscriber subscriber Delivery.sending Delivery.holding
        Delivery.Reachable.start (Delivery.Step.finds_open subscriber refl))
      (Delivery.Step.sends subscriber)

delivered_until_ack_example :
    All (IsCopy plain) sent_once.sent
    × Agrees (Delivery.waiting (msg_to_send 0 subscriber plain)) sent_once.sent
    × Ended (Delivery.waiting (msg_to_send 0 subscriber plain)) Chan.open_chan
    × (Delivery.waiting (msg_to_send 0 subscriber plain) ≢ Delivery.panicked)
delivered_until_ack_example =
    delivered_until_ack 0 plain subscriber sent_once
      (Delivery.waiting (msg_to_send 0 subscriber plain)) tt (refl, refl, refl) sent_once-Reachable

-- Publish has found the Pub/Sub open, and Close runs before Publish has the lock.
publish_after_close :
    (publish_copies "t" (plain ∷ []) (end_close (begin_close fresh).1)).0
    ≡ Outcome.panics (PanicValue.text "assignment to entry in nil map")
unfolding new_go_channel begin_close end_close publish_copies load_or_store lookup insert close_chan
publish_after_close = refl
