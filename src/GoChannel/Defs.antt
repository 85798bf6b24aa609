-- ===== src/GoChannel/Defs.antt =====
-- pubsub/gochannel/pubsub.go: the Pub/Sub's registry of subscribers and stored messages, and the
-- delivery of one message to one subscriber. A subscriber is a number, a message the text of the
-- copy that is published. A section that holds the subscribers' lock is one step; goroutines are
-- steps of their own.
use watermill.Prelude.{
  ℕ, ◌+◌, ◌-◌, ◌=ℕ◌, String, Bool, true, false, ◌&&◌, not, if◌then◌else◌, Option, none, some, List,
  [], ◌∷◌, ◌++◌, map, Map, lookup, insert, delete,
}
use watermill.Go.{Err, PanicValue, Outcome, Result, Go, Chan, close_chan, defer_call, ◌>>=◌, ◌>>◌}
use watermill.Message.Defs.{Message}
use watermill.Message.Content.{copy, copy_with_context}

-- struct Config, but for the size of the channels' buffers
pub record Config : Type 0 where
  pub persistent : Bool
  pub block_publish_until_subscriber_ack : Bool
  pub preserve_context : Bool

-- struct GoChannel. `topic_locks` has the topics of subscribersByTopicLock, `waiting` is the counter
-- of subscribersWg; `none` is the nil map.
pub record GoChannel : Type 0 where
  pub config : Config
  pub subscribers : Map (List ℕ)
  pub topic_locks : Map (Unit {0})
  pub persisted_messages : Option (Map (List Message))
  pub closed : Bool
  pub closing : Chan
  pub waiting : ℕ

-- NewGoChannel
unfoldable pub new_go_channel : Config → GoChannel
new_go_channel config = record {
  config = config;
  subscribers = [];
  topic_locks = [];
  persisted_messages = some [];
  closed = false;
  closing = Chan.open_chan;
  waiting = 0;
}

-- addSubscriber
add_to : Option (List ℕ) → ℕ → List ℕ
add_to none s = s ∷ []
add_to (some subs) s = subs ++ s ∷ []

unfoldable pub add_subscriber : String → ℕ → GoChannel → GoChannel
unfolding add_to insert lookup
add_subscriber topic s g = record g {
  subscribers = insert topic (add_to (lookup topic g.subscribers) s) g.subscribers;
}

-- topicSubscribers
unfoldable pub topic_subscribers : GoChannel → String → List ℕ
unfolding lookup
topic_subscribers g topic = elim (lookup topic g.subscribers) [ none ↦ [] | some subs ↦ subs ]

-- the loop of removeSubscriber: the list without the first occurrence, if there is one
unfoldable pub without : ℕ → List ℕ → Option (List ℕ)
without s [] = none
without s (sub ∷ subs) =
    let rest = without s subs in
    if sub =ℕ s then some subs else elim rest [ none ↦ none | some others ↦ some (sub ∷ others) ]

abbrev pub is_empty : List ℕ → Bool
is_empty [] = true
is_empty (s ∷ subs) = false

drop_topic : String → GoChannel → GoChannel
unfolding delete
drop_topic topic g = record g {
  subscribers = delete topic g.subscribers;
  topic_locks = delete topic g.topic_locks;
}

put_subscribers : String → Option (List ℕ) → Go GoChannel (Unit {0})
unfolding insert drop_topic
put_subscribers topic none g =
    (Outcome.panics (PanicValue.text "cannot remove subscriber, not found"), g)
put_subscribers topic (some subs) g =
    let g' = record g { subscribers = insert topic subs g.subscribers } in
    (Outcome.done tt, if is_empty subs && not g.config.persistent then drop_topic topic g' else g')

-- removeSubscriber
unfoldable pub remove_subscriber : String → ℕ → Go GoChannel (Unit {0})
unfolding put_subscribers without topic_subscribers
remove_subscriber topic s g = put_subscribers topic (without s (topic_subscribers g topic)) g

-- subscribersByTopicLock.LoadOrStore(topic, ...): whether it was loaded
unfoldable pub load_or_store : String → Go GoChannel Bool
unfolding lookup insert
load_or_store topic g = elim (lookup topic g.topic_locks) [
  | some _ ↦ (Outcome.done true, g)
  | none ↦ (Outcome.done false, record g { topic_locks = insert topic tt g.topic_locks })
]

-- subLock, _ := Load(topic); subLock.(*sync.Mutex): the assertion panics on nil
unfoldable pub load_lock : String → Go GoChannel (Unit {0})
unfolding lookup
load_lock topic g = elim (lookup topic g.topic_locks) [
  | some _ ↦ (Outcome.done tt, g)
  | none ↦ (
    Outcome.panics (PanicValue.text "interface conversion: interface {} is nil, not *sync.Mutex"),
    g,
  )
]

abbrev pub pub_sub_closed : Err
pub_sub_closed = Err.new "Pub/Sub closed"

abbrev pub messages_of : Option (List Message) → List Message
messages_of none = []
messages_of (some ms) = ms

-- g.persistedMessages[topic]
abbrev pub persisted_in : Option (Map (List Message)) → String → List Message
persisted_in none topic = []
persisted_in (some stored) topic = messages_of (lookup topic stored)

abbrev pub persisted_on : String → GoChannel → List Message
persisted_on topic g = persisted_in g.persisted_messages topic

abbrev pub replayed : String → GoChannel → List Message
replayed topic g = if g.config.persistent then persisted_on topic g else []

register : String → ℕ → Go GoChannel (Result (List Message))
unfolding load_or_store add_subscriber
register topic s = do
  _ ← load_or_store topic
  λ g. (Outcome.done (Result.ok (replayed topic g)), add_subscriber topic s g)

-- Subscribe, up to the goroutine that removes the subscriber again: the stored messages that are
-- sent to the subscriber
unfoldable pub subscribe : String → ℕ → Go GoChannel (Result (List Message))
unfolding register
subscribe topic s g =
    if g.closed
    then (Outcome.done (Result.fail pub_sub_closed), g)
    else register topic s (record g { waiting = g.waiting + 1 })

waiting_done : Go GoChannel (Unit {0})
waiting_done g =
    if g.waiting =ℕ 0
    then (Outcome.panics (PanicValue.text "sync: negative WaitGroup counter"), g)
    else (Outcome.done tt, record g { waiting = g.waiting - 1 })

-- the end of the goroutine of Subscribe, once the subscriber is closed; its deferred calls give the
-- locks back
unfoldable pub unsubscribe : String → ℕ → Go GoChannel (Unit {0})
unfolding load_lock remove_subscriber waiting_done
unsubscribe topic s = do load_lock topic; remove_subscriber topic s; waiting_done

-- the copies that Publish makes
unfoldable pub messages_to_publish : Config → List Message → List Message
unfolding copy copy_with_context
messages_to_publish config messages =
    map (if config.preserve_context then copy_with_context else copy) messages

put_stored : String → List Message → Option (Map (List Message)) → Go GoChannel (Unit {0})
unfolding insert lookup
put_stored topic ms none g = (Outcome.panics (PanicValue.text "assignment to entry in nil map"), g)
put_stored topic ms (some stored) g = (
  Outcome.done tt,
  record g {
    persisted_messages = some (insert topic (messages_of (lookup topic stored) ++ ms) stored);
  },
)

store : String → List Message → Go GoChannel (Unit {0})
unfolding put_stored
store topic ms g =
    if g.config.persistent then put_stored topic ms g.persisted_messages g else (Outcome.done tt, g)

-- defer subscribersByTopicLock.Delete(topic), if this call has stored the lock
drop_lock : Bool → String → Go GoChannel (Unit {0})
unfolding delete
drop_lock true topic g = (Outcome.done tt, g)
drop_lock false topic g = (Outcome.done tt, record g { topic_locks = delete topic g.topic_locks })

-- the loop of Publish: each message with the subscribers that sendMessage starts a delivery to
unfoldable pub send_all : GoChannel → String → List Message → List (Message × List ℕ)
unfolding topic_subscribers
send_all g topic [] = []
send_all g topic (msg ∷ ms) = (msg, topic_subscribers g topic) ∷ send_all g topic ms

send_stored : String → List Message → Go GoChannel (List (Message × List ℕ))
unfolding store send_all
send_stored topic ms = do store topic ms; λ g. (Outcome.done (send_all g topic ms), g)

-- the part of Publish that holds the subscribers' lock for reading
unfoldable pub publish_copies : String → List Message → Go GoChannel (List (Message × List ℕ))
unfolding load_or_store send_stored drop_lock
publish_copies topic ms = do
  loaded ← load_or_store topic
  defer_call (drop_lock loaded topic) (send_stored topic ms)

-- Publish, up to where it waits for the subscribers' lock: whether the Pub/Sub is closed, and the
-- copies. Close may run before the rest of it, publish_copies.
unfoldable pub begin_publish : List Message → GoChannel → Result (List Message)
begin_publish messages g =
    if g.closed
    then Result.fail pub_sub_closed
    else Result.ok (messages_to_publish g.config messages)

-- Close, up to the wait for the subscribers, and after it
unfoldable pub begin_close : Go GoChannel Bool
unfolding close_chan
begin_close g = if g.closed then (Outcome.done false, g) else elim (close_chan g.closing) [
  | Outcome.done ch ↦ (Outcome.done true, record g { closed = true; closing = ch })
  | Outcome.panics p ↦ (Outcome.panics p, record g { closed = true })
]

unfoldable pub end_close : GoChannel → GoChannel
end_close g = record g { persisted_messages = none }
