-- ===== src/GoChannel/Sections.antt =====
-- The invariant of the registry, and that the sections of Subscribe and Close keep it.
pub mod Leaving
pub mod Publishing
use watermill.Prelude.{
  ℕ, ◌+◌, ◌-◌, ◌<◌, ◌∷◌, ◌++◌, String, Bool, true, false, ◌&&◌, not, ◌==◌, eq_iff, eq_refl,
  if◌then◌else◌, Option, none, some, List, [], Map, lookup, insert, delete, length, length-append,
  HasUniqueKeys, lookup-insert, insert-HasUniqueKeys, lookup-delete, delete-HasUniqueKeys, ◌≡◌,
  refl, sym, subst, ◌≢◌, arith, ◌⊎◌, inl, inr, Option-cases,
}
use watermill.Go.{Outcome, Chan, close_chan}
use watermill.Message.Defs.{Message}
use watermill.GoChannel.Defs.{
  Config, GoChannel, new_go_channel, add_subscriber, without, remove_subscriber, load_or_store,
  load_lock, is_empty, messages_of, topic_subscribers, subscribe, unsubscribe, publish_copies,
  begin_close, end_close,
}
use watermill.GoChannel.Counting.{
  count, total, subs_of, total-insert, total-delete, without_lem, length-total,
}

-- Each topic that has subscribers has its lock, all subscribers are counted, and the stored messages
-- and the channel of the closing are there while the Pub/Sub is open.
pub record IsValid (g : GoChannel) : Type 0 where
  pub unique_subscribers : HasUniqueKeys g.subscribers
  pub unique_locks : HasUniqueKeys g.topic_locks
  pub locked :
      (topic : String) → (lookup topic g.topic_locks ≢ none) ⊎ (lookup topic g.subscribers ≡ none)
  pub counted : g.waiting ≡ total g.subscribers
  pub usable : (g.closed ≡ true) ⊎ ((g.persisted_messages ≢ none) × (g.closing ≡ Chan.open_chan))

pub new_go_channel-IsValid : (config : Config) → IsValid (new_go_channel config)
unfolding new_go_channel lookup
new_go_channel-IsValid config = record {
  unique_subscribers = tt;
  unique_locks = tt;
  locked = λ topic. inr refl;
  counted = refl;
  usable = inr (λ h. ground arith, refl);
}

-- the locks after LoadOrStore
abbrev pub with_lock : String → Map (Unit {0}) → Map (Unit {0})
with_lock topic locks = elim (lookup topic locks) [ some _ ↦ locks | none ↦ insert topic tt locks ]

abbrev is_some : Option (Unit {0}) → Bool
is_some (some _) = true
is_some none = false

load_or_store_lem :
    (topic : String) (g : GoChannel)
    → load_or_store topic g ≡ (
      Outcome.done (is_some (lookup topic g.topic_locks)),
      record g { topic_locks = with_lock topic g.topic_locks },
    )
unfolding load_or_store
load_or_store_lem topic g = ground arith

with_lock-HasUniqueKeys :
    (topic : String) (locks : Map (Unit {0}))
    → HasUniqueKeys locks
    → HasUniqueKeys (with_lock topic locks)
with_lock-HasUniqueKeys topic locks u = ground (arith, insert-HasUniqueKeys topic tt locks u)

lookup-with_lock :
    (topic t : String) (locks : Map (Unit {0}))
    → lookup t (with_lock topic locks) ≡ (if topic == t then some tt else lookup t locks)
lookup-with_lock topic t locks = ground (arith, eq_iff topic t, lookup-insert topic t tt locks)

-- the registry with one more subscriber
abbrev pub with_subscriber : String → ℕ → GoChannel → GoChannel
with_subscriber topic s g = record g {
  waiting = g.waiting + 1;
  topic_locks = with_lock topic g.topic_locks;
  subscribers = insert topic (subs_of (lookup topic g.subscribers) ++ s ∷ []) g.subscribers;
}

subscribe_lem :
    (topic : String) (s : ℕ) (g : GoChannel)
    → (subscribe topic s g).1 ≡ (if g.closed then g else with_subscriber topic s g)
unfolding subscribe load_or_store add_subscriber
subscribe_lem topic s g = ground arith

with_subscriber-IsValid :
    (topic : String) (s : ℕ) (g : GoChannel) → IsValid g → IsValid (with_subscriber topic s g)
with_subscriber-IsValid topic s g v = record {
  unique_subscribers = insert-HasUniqueKeys _ _ _ v.unique_subscribers;
  unique_locks = with_lock-HasUniqueKeys topic g.topic_locks v.unique_locks;
  locked = λ t. ground (
    arith,
    v.locked t,
    lookup-with_lock topic t g.topic_locks,
    lookup-insert topic t (subs_of (lookup topic g.subscribers) ++ s ∷ []) g.subscribers,
  );
  counted = omega (
    arith,
    v.counted,
    total-insert topic (subs_of (lookup topic g.subscribers) ++ s ∷ []) g.subscribers,
    length-append (subs_of (lookup topic g.subscribers)) (s ∷ []),
  );
  usable = v.usable;
}

closed-IsValid :
    (c : Chan) (g : GoChannel) → IsValid g → IsValid (record g { closed = true; closing = c })
closed-IsValid c g v = record {
  unique_subscribers = v.unique_subscribers;
  unique_locks = v.unique_locks;
  locked = v.locked;
  counted = v.counted;
  usable = inl refl;
}

begin_close_lem :
    (g : GoChannel)
    → (begin_close g).1 ≡ record g { closed = true; closing = (begin_close g).1.closing }
unfolding begin_close close_chan
begin_close_lem g = ground arith

pub begin_close-IsValid : (g : GoChannel) → IsValid g → IsValid (begin_close g).1
begin_close-IsValid g v =
    subst IsValid (sym (begin_close_lem g)) (closed-IsValid (begin_close g).1.closing g v)

pub end_close-IsValid : (g : GoChannel) → g.closed ≡ true → IsValid g → IsValid (end_close g)
unfolding end_close
end_close-IsValid g c v = record {
  unique_subscribers = v.unique_subscribers;
  unique_locks = v.unique_locks;
  locked = v.locked;
  counted = v.counted;
  usable = inl c;
}

pub subscribe-IsValid :
    (topic : String) (s : ℕ) (g : GoChannel) → IsValid g → IsValid (subscribe topic s g).1
subscribe-IsValid topic s g v = subst IsValid (sym (subscribe_lem topic s g)) (go g.closed)
  where
    go : (b : Bool) → IsValid (if b then g else with_subscriber topic s g)
    go true = v
    go false = with_subscriber-IsValid topic s g v
