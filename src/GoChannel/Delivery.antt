-- ===== src/GoChannel/Delivery.antt =====
-- pubsub/gochannel/pubsub.go: a subscriber, and the delivery of one message to it. Each lock section,
-- each communication on a channel and each call of the consumer is a step; the steps of the delivery,
-- of Close and of the consumer interleave freely.
use watermill.Prelude.{ℕ, Bool, true, false, List, ◌∷◌, ◌≡◌, ◌≢◌}
use watermill.Go.{Context, Chan}
use watermill.Message.Defs.{Message, set_context, context_of}
use watermill.Message.Ack.{Call, call}
use watermill.Message.Content.{copy}

-- struct subscriber; `sent` is what has been sent on its output channel, the latest first
pub record Subscriber : Type 0 where
  pub ctx : Context
  pub closed : Bool
  pub closing : Chan
  pub output_channel : Chan
  pub sent : List Message
  pub preserve_context : Bool

-- where sendMessageToSubscriber stands: at the top of its loop, past the check for a closed subscriber
-- with the sending lock in its hands, waiting for the message that it has sent, returned, or panicked
pub data Delivery : Type 0 where
  sending : Delivery
  holding : Delivery
  waiting : Message → Delivery
  acked : Message → Delivery
  discarded : Delivery
  panicked : Delivery

-- s.outputChannel <- msgToSend: a closed channel panics, a nil one blocks for ever
unfoldable pub send_on : Chan → Message → Subscriber → Subscriber × Delivery
send_on Chan.open_chan m s = (record s { sent = m ∷ s.sent }, Delivery.waiting m)
send_on Chan.closed_chan m s = (s, Delivery.panicked)
send_on Chan.nil_chan m s = (s, Delivery.holding)

-- the copy that one turn of the loop sends; `cancel_ctx` is the number of the context that is derived
-- from the subscriber's
unfoldable pub msg_to_send : ℕ → Subscriber → Message → Message
unfolding copy set_context context_of
msg_to_send cancel_ctx s msg =
    set_context
      (elim s.preserve_context [
        | true ↦ context_of msg
        | false ↦ Context.with_cancel cancel_ctx s.ctx
      ])
      (copy msg)

-- A step of the delivery of `msg`, of the subscriber's Close, or of the consumer.
pub data Step (n : ℕ) (msg : Message) : Subscriber → Delivery → Subscriber → Delivery → Type 0 where
  -- s.sending.Lock(), and the check: the subscriber is closed and the message is discarded, or not
  finds_closed :
      (s : Subscriber) → s.closed ≡ true → Step n msg s Delivery.sending s Delivery.discarded
  finds_open :
      (s : Subscriber) → s.closed ≡ false → Step n msg s Delivery.sending s Delivery.holding
  -- the select under the lock, which is given back after it
  sends :
      (s : Subscriber)
      → Step n msg s Delivery.holding
          (send_on s.output_channel (msg_to_send n s msg) s).0
          (send_on s.output_channel (msg_to_send n s msg) s).1
  gives_up :
      (s : Subscriber)
      → s.closing ≡ Chan.closed_chan
      → Step n msg s Delivery.holding s Delivery.discarded
  -- <-s.closing, after the message is sent
  stops_waiting :
      (s : Subscriber) (m : Message)
      → s.closing ≡ Chan.closed_chan
      → Step n msg s (Delivery.waiting m) s Delivery.discarded
  -- <-msgToSend.Acked(), <-msgToSend.Nacked()
  gets_ack :
      (s : Subscriber) (m : Message)
      → m.ack ≡ Chan.closed_chan
      → Step n msg s (Delivery.waiting m) s (Delivery.acked m)
  gets_nack :
      (s : Subscriber) (m : Message)
      → m.no_ack ≡ Chan.closed_chan
      → Step n msg s (Delivery.waiting m) s Delivery.sending
  -- the consumer calls Ack or Nack on the message that was sent last
  consumer_calls :
      (s : Subscriber) (c : Call) (m : Message) (ms : List Message)
      → s.sent ≡ m ∷ ms
      → Step n msg s
          (Delivery.waiting m)
          (record s { sent = (call c m).1 ∷ ms })
          (Delivery.waiting (call c m).1)
  -- Close: close(s.closing), and the section that holds the sending lock, when the delivery has not
  begins_close :
      (s : Subscriber) (d : Delivery)
      → s.closed ≡ false
      → s.closing ≡ Chan.open_chan
      → Step n msg s d (record s { closing = Chan.closed_chan }) d
  ends_close :
      (s : Subscriber) (d : Delivery)
      → d ≢ Delivery.holding
      → s.closing ≡ Chan.closed_chan
      → s.output_channel ≡ Chan.open_chan
      → Step n msg s d (record s { closed = true; output_channel = Chan.closed_chan }) d

pub data Reachable (n : ℕ) (msg : Message) (s : Subscriber) : Subscriber → Delivery → Type 0 where
  start : Reachable n msg s s Delivery.sending
  next :
      (s' s'' : Subscriber) (d d' : Delivery)
      → Reachable n msg s s' d
      → Step n msg s' d s'' d'
      → Reachable n msg s s'' d'
