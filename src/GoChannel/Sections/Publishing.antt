-- ===== src/GoChannel/Sections/Publishing.antt =====
-- The section of Publish keeps the invariant of the registry.
use watermill.Prelude.{
  ◌++◌, String, eq_iff, if◌then◌else◌, Option, none, some, List, Map, lookup, insert, delete,
  HasUniqueKeys, lookup-insert, insert-HasUniqueKeys, lookup-delete, delete-HasUniqueKeys, ◌≡◌, sym,
  subst, arith,
}
use watermill.Message.Defs.{Message}
use watermill.GoChannel.Defs.{GoChannel, load_or_store, messages_of, publish_copies}
use watermill.GoChannel.Sections.{IsValid}

-- the locks after Publish
abbrev without_lock : String → Map (Unit {0}) → Map (Unit {0})
without_lock topic locks = elim (lookup topic locks) [
  | some _ ↦ locks
  | none ↦ delete topic (insert topic tt locks)
]

abbrev pub stored_in :
    String → List Message → Option (Map (List Message)) → Option (Map (List Message))
stored_in topic ms none = none
stored_in topic ms (some stored) =
    some (insert topic (messages_of (lookup topic stored) ++ ms) stored)

without_lock-HasUniqueKeys :
    (topic : String) (locks : Map (Unit {0}))
    → HasUniqueKeys locks
    → HasUniqueKeys (without_lock topic locks)
without_lock-HasUniqueKeys topic locks u =
    let i = insert-HasUniqueKeys topic tt locks u in
    ground (arith, delete-HasUniqueKeys topic (insert topic tt locks) i)

pub lookup-without_lock :
    (topic t : String) (locks : Map (Unit {0}))
    → HasUniqueKeys locks
    → lookup t (without_lock topic locks) ≡ lookup t locks
lookup-without_lock topic t locks u =
    let i = insert-HasUniqueKeys topic tt locks u in
    ground (
      arith,
      eq_iff topic t,
      lookup-insert topic t tt locks,
      lookup-delete topic t (insert topic tt locks) i,
    )

-- the registry after Publish
abbrev pub with_messages : String → List Message → GoChannel → GoChannel
with_messages topic ms g = record g {
  topic_locks = without_lock topic g.topic_locks;
  persisted_messages =
      if g.config.persistent then stored_in topic ms g.persisted_messages else g.persisted_messages;
}

pub publish_copies_lem :
    (topic : String) (ms : List Message) (g : GoChannel)
    → (publish_copies topic ms g).1 ≡ with_messages topic ms g
unfolding publish_copies load_or_store
publish_copies_lem topic ms g = ground arith

with_messages-IsValid :
    (topic : String) (ms : List Message) (g : GoChannel)
    → IsValid g
    → IsValid (with_messages topic ms g)
with_messages-IsValid topic ms g v = record {
  unique_subscribers = v.unique_subscribers;
  unique_locks = without_lock-HasUniqueKeys topic g.topic_locks v.unique_locks;
  locked =
      λ t. ground (arith, v.locked t, lookup-without_lock topic t g.topic_locks v.unique_locks);
  counted = v.counted;
  usable = ground (arith, v.usable);
}

pub publish_copies-IsValid :
    (topic : String) (ms : List Message) (g : GoChannel)
    → IsValid g
    → IsValid (publish_copies topic ms g).1
publish_copies-IsValid topic ms g v =
    subst IsValid (sym (publish_copies_lem topic ms g)) (with_messages-IsValid topic ms g v)
