-- ===== src/GoChannel/Registry.antt =====
-- pubsub/gochannel/pubsub.go: the registry of subscribers under every interleaving of its locked
-- sections.
use watermill.Prelude.{
  ℕ, ◌+◌, ◌∷◌, ◌++◌, ◌=ℕ◌, String, Bool, true, false, ◌&&◌, not, ◌==◌, eq_iff, if◌then◌else◌, some,
  List, [], lookup, insert, lookup-insert, insert-HasUniqueKeys, lookup-delete, ◌≡◌, arith, ◌⊎◌,
}
use watermill.Go.{Outcome, Result, close_chan}
use watermill.Message.Defs.{Message}
use watermill.GoChannel.Defs.{
  Config, GoChannel, new_go_channel, add_subscriber, load_or_store, replayed, topic_subscribers,
  subscribe, unsubscribe, publish_copies, begin_close, end_close,
}
use watermill.GoChannel.Counting.{count, count-append, subs_of, without_lem, length-total}
use watermill.GoChannel.Sections.{
  IsValid, new_go_channel-IsValid, begin_close-IsValid, end_close-IsValid, subscribe-IsValid,
  with_subscriber,
}
use watermill.GoChannel.Sections.Leaving.{
  IsThere, unsubscribe_lem, there_lem, unsubscribe-IsValid, without_subscriber, topic_goes,
  topic_goes_lem,
}
use watermill.GoChannel.Sections.Publishing.{publish_copies-IsValid}

-- A call on the registry, or the two ends of Close. Publish may have seen the open Pub/Sub before
-- Close; a subscriber is removed that stands in the registry.
pub data Step : GoChannel → GoChannel → Type 0 where
  subscribes : (topic : String) (s : ℕ) (g : GoChannel) → Step g (subscribe topic s g).1
  unsubscribes :
      (topic : String) (s : ℕ) (g : GoChannel)
      → IsThere s topic g
      → Step g (unsubscribe topic s g).1
  publishes :
      (topic : String) (ms : List Message) (g : GoChannel) → Step g (publish_copies topic ms g).1
  begins_close : (g : GoChannel) → Step g (begin_close g).1
  ends_close : (g : GoChannel) → g.closed ≡ true → g.waiting ≡ 0 → Step g (end_close g)

pub data Reachable : Config → GoChannel → Type 0 where
  start : (config : Config) → Reachable config (new_go_channel config)
  next : (config : Config) (g g' : GoChannel) → Reachable config g → Step g g' → Reachable config g'

Step-IsValid : (g g' : GoChannel) → Step g g' → IsValid g → IsValid g'
Step-IsValid g g' (Step.subscribes topic s _) v = subscribe-IsValid topic s g v
Step-IsValid g g' (Step.unsubscribes topic s _ h) v = unsubscribe-IsValid topic s g v h
Step-IsValid g g' (Step.publishes topic ms _) v = publish_copies-IsValid topic ms g v
Step-IsValid g g' (Step.begins_close _) v = begin_close-IsValid g v
Step-IsValid g g' (Step.ends_close _ c w) v = end_close-IsValid g c v

pub Reachable-IsValid : (config : Config) (g : GoChannel) → Reachable config g → IsValid g
Reachable-IsValid config g (Reachable.start _) = new_go_channel-IsValid config
Reachable-IsValid config g' (Reachable.next _ g _ r st) =
    Step-IsValid g g' st (Reachable-IsValid config g r)

-- The registry with one occurrence of a subscriber less on one topic.
abbrev pub OneLess : String → ℕ → GoChannel → GoChannel → Type 0
OneLess topic s g g' =
    (t : String) (u : ℕ)
    → count u (topic_subscribers g' t) + (if topic == t && (s =ℕ u) then 1 else 0)
      ≡ count u (topic_subscribers g t)

without_subscriber-OneLess :
    (b : Bool) (topic : String) (s : ℕ) (g : GoChannel) (others subs : List ℕ)
    → IsValid g
    → lookup topic g.subscribers ≡ some subs
    → (b ≡ false) ⊎ (others ≡ [])
    → ((u : ℕ) → count u others + (if s =ℕ u then 1 else 0) ≡ count u subs)
    → OneLess topic s g (without_subscriber b topic others g)
unfolding topic_subscribers
without_subscriber-OneLess false topic s g others subs v h d c t u =
    ground (arith, c u, eq_iff topic t, lookup-insert topic t others g.subscribers)
without_subscriber-OneLess true topic s g others subs v h d c t u =
    let q = insert-HasUniqueKeys topic others g.subscribers v.unique_subscribers in
    ground (
      arith,
      c u,
      eq_iff topic t,
      lookup-insert topic t others g.subscribers,
      lookup-delete topic t (insert topic others g.subscribers) q,
    )

-- However subscriptions, removals, publications and Close have interleaved, a subscriber that stands
-- in the registry of its topic can be removed: nothing panics, and the registry has it once less on
-- that topic and is the same otherwise.
pub unsubscribe_removes :
    (config : Config) (g : GoChannel) (topic : String) (s : ℕ)
    → Reachable config g
    → IsThere s topic g
    → (g' : GoChannel) × (unsubscribe topic s g ≡ (Outcome.done tt, g')) × OneLess topic s g g'
unsubscribe_removes config g topic s r h =
    let v = Reachable-IsValid config g r in
    let (subs, e, c, l) = there_lem topic s g v h in
    let (others, e', counts, _) = without_lem s subs c in
    let t = length-total topic subs g.subscribers e in
    let goes = topic_goes_lem others g in
    (
      without_subscriber (topic_goes others g) topic others g,
      unsubscribe_lem topic s g others subs l e e' (ground (arith, v.counted)),
      without_subscriber-OneLess (topic_goes others g) topic s g others subs v e goes counts,
    )

-- On a Pub/Sub that is not closed, after whatever has run before, Subscribe does not panic: the
-- subscriber joins those of its topic, and the stored messages of the topic are sent to it if the
-- Pub/Sub is persistent, none if not.
pub subscribe_joins :
    (config : Config) (g : GoChannel) (topic : String) (s : ℕ)
    → Reachable config g
    → g.closed ≡ false
    → (g' : GoChannel) × (subscribe topic s g ≡ (Outcome.done (Result.ok (replayed topic g)), g'))
      × OneLess topic s g' g
unfolding subscribe load_or_store add_subscriber topic_subscribers
subscribe_joins config g topic s r o = (
  with_subscriber topic s g,
  ground arith,
  λ t u.
      (let old = subs_of (lookup topic g.subscribers) in
        ground (
          arith,
          eq_iff topic t,
          lookup-insert topic t (old ++ s ∷ []) g.subscribers,
          count-append u old (s ∷ []),
        )),
)

-- Close never panics, however often it is called and whatever has run before: the first call closes
-- the Pub/Sub, and the others find it closed.
pub begin_close_returns :
    (config : Config) (g : GoChannel)
    → Reachable config g
    → ((begin_close g).0 ≡ Outcome.done (not g.closed)) × ((begin_close g).1.closed ≡ true)
unfolding begin_close close_chan
begin_close_returns config g r =
    let v = Reachable-IsValid config g r in (ground (arith, v.usable), ground arith)
