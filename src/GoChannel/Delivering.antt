-- ===== src/GoChannel/Delivering.antt =====
-- What Publish promises while Close and other calls run between its two sections.
use watermill.Prelude.{
  map, All, false≢true, sym, ◌∷◌, ◌++◌, String, Bool, true, false, ◌&&◌, ◌==◌, eq_iff,
  if◌then◌else◌, Option, none, some, List, [], Map, lookup, lookup-insert, ◌≡◌, refl, ap, ◌∙◌, ◌≢◌,
  arith, ◌⊎◌, inl, inr, Bool-cases,
}
use watermill.Go.{Outcome, Result, Chan}
use watermill.Message.Defs.{Message}
use watermill.GoChannel.Defs.{
  Config, GoChannel, load_or_store, messages_of, persisted_in, persisted_on, messages_to_publish,
  begin_publish, pub_sub_closed, topic_subscribers, send_all, publish_copies,
}
use watermill.Message.Equality.{SameContent, IsWellFormed, copy_lem}
use watermill.Message.Defs.{AckType, new_message}
use watermill.Message.Content.{copy, copy_with_context}
use watermill.GoChannel.Sections.{IsValid, with_lock}
use watermill.GoChannel.Sections.Publishing.{with_messages, stored_in}
use watermill.GoChannel.Registry.{Step, Reachable, Reachable-IsValid}

-- A message list appended to the stored messages of one topic, if messages are stored at all.
abbrev pub StoresMore : String → List Message → GoChannel → GoChannel → Type 0
StoresMore topic ms g g' =
    (t : String)
    → persisted_on t g'
      ≡ (if g.config.persistent && topic == t then persisted_on t g ++ ms else persisted_on t g)

persisted_in-stored :
    (topic t : String) (ms : List Message) (b : Bool) (p : Option (Map (List Message)))
    → (b ≡ false) ⊎ (p ≢ none)
    → persisted_in (if b then stored_in topic ms p else p) t
      ≡ (if b && topic == t then persisted_in p t ++ ms else persisted_in p t)
persisted_in-stored topic t ms false none h = refl
persisted_in-stored topic t ms true none (inl e) = cc
persisted_in-stored topic t ms true none (inr h) = absurd (h refl)
persisted_in-stored topic t ms false (some stored) h = refl
persisted_in-stored topic t ms true (some stored) h =
    ap messages_of (lookup-insert topic t (messages_of (lookup topic stored) ++ ms) stored)
    ∙ elim (Bool-cases (topic == t)) [
      | inl e ↦ rw e (ap (λ k. messages_of (lookup k stored) ++ ms) ((eq_iff topic t).0 e))
      | inr e ↦ rw e refl
    ]

send_all_same :
    (g : GoChannel) (l : Map (Unit {0})) (p : Option (Map (List Message))) (topic : String)
    (ms : List Message)
    → send_all (record g { topic_locks = l; persisted_messages = p }) topic ms ≡ send_all g topic ms
unfolding send_all topic_subscribers
send_all_same g l p topic [] = refl
send_all_same g l p topic (m ∷ ms) =
    ap (λ rest. (m, topic_subscribers g topic) ∷ rest) (send_all_same g l p topic ms)

send_all-map :
    (g : GoChannel) (topic : String) (ms : List Message)
    → send_all g topic ms ≡ map (λ m. (m, topic_subscribers g topic)) ms
unfolding send_all
send_all-map g topic [] = refl
send_all-map g topic (m ∷ ms) =
    ap (λ rest. (m, topic_subscribers g topic) ∷ rest) (send_all-map g topic ms)

publish_copies_done :
    (topic : String) (ms : List Message) (g : GoChannel)
    → (g.config.persistent ≡ false) ⊎ (g.persisted_messages ≢ none)
    → publish_copies topic ms g ≡ (Outcome.done (send_all g topic ms), with_messages topic ms g)
unfolding publish_copies load_or_store
publish_copies_done topic ms g h = ground (
  arith,
  send_all_same g (with_lock topic g.topic_locks) g.persisted_messages topic ms,
  send_all_same g (with_lock topic g.topic_locks) (stored_in topic ms g.persisted_messages) topic
      ms,
)

-- What runs between two sections of a call.
pub data Later (g : GoChannel) : GoChannel → Type 0 where
  at_once : Later g g
  after : {g' g'' : GoChannel} → Later g g' → Step g' g'' → Later g g''

Later-Reachable :
    (config : Config) (g : GoChannel) {g' : GoChannel}
    → Reachable config g
    → Later g g'
    → Reachable config g'
Later-Reachable config g r Later.at_once = r
Later-Reachable config g r (Later.after {g'} {g''} l st) =
    Reachable.next config g' g'' (Later-Reachable config g r l) st

-- A message with the content of another and a settlement of its own; it has the context of the other
-- if the Pub/Sub preserves contexts, and none if not.
pub record IsCopyOf (config : Config) (m c : Message) : Type 0 where
  same : SameContent m c
  unsettled : c.ack_sent_type ≡ AckType.no_ack_sent
  ack : c.ack ≡ Chan.open_chan
  no_ack : c.no_ack ≡ Chan.open_chan
  ctx : c.ctx ≡ (if config.preserve_context then m.ctx else none)

abbrev pub CopiesOf : Config → List Message → List Message → Type 0
CopiesOf config [] [] = Unit
CopiesOf config [] (c ∷ cs) = ⊥
CopiesOf config (m ∷ ms) [] = ⊥
CopiesOf config (m ∷ ms) (c ∷ cs) = IsCopyOf config m c × CopiesOf config ms cs

copy-IsCopyOf :
    (config : Config) (m : Message)
    → IsWellFormed m
    → IsCopyOf config m ((if config.preserve_context then copy_with_context else copy) m)
unfolding copy copy_with_context new_message
copy-IsCopyOf config m fine =
    let same = (copy_lem m fine).0 in
    record {
      same = record {
        uuid = ground (arith, same.uuid);
        payload = ground (arith, same.payload);
        metadata = λ k. ground (arith, same.metadata k);
      };
      unsettled = ground arith;
      ack = ground arith;
      no_ack = ground arith;
      ctx = ground arith;
    }

messages_to_publish-CopiesOf :
    (config : Config) (ms : List Message)
    → All IsWellFormed ms
    → CopiesOf config ms (messages_to_publish config ms)
unfolding messages_to_publish
messages_to_publish-CopiesOf config [] fine = tt
messages_to_publish-CopiesOf config (m ∷ ms) (w, fine) =
    (copy-IsCopyOf config m w, messages_to_publish-CopiesOf config ms fine)

is_stored :
    (g : GoChannel)
    → IsValid g
    → (g.config.persistent ≡ false) ⊎ (g.closed ≡ false)
    → (g.config.persistent ≡ false) ⊎ (g.persisted_messages ≢ none)
is_stored g v (inl e) = inl e
is_stored g v (inr o) = elim v.usable [
  | inl c ↦ absurd (false≢true (sym o ∙ c))
  | inr (some_map, _) ↦ inr some_map
]

-- When Publish has found the Pub/Sub open, and other calls have run before it has the subscribers' lock,
-- Close among them unless the Pub/Sub is persistent: it has made, in order, a copy of each message, whose
-- metadata hold a key once. With the lock it does not panic: it starts the delivery of each copy, in
-- order, to the subscribers that the topic has then, stores the copies behind those of the topic if the
-- Pub/Sub is persistent, and leaves the subscribers as they are.
pub publish_delivers :
    (config : Config) (g g' : GoChannel) (topic : String) (messages : List Message)
    → All IsWellFormed messages
    → Reachable config g
    → g.closed ≡ false
    → Later g g'
    → (g'.config.persistent ≡ false) ⊎ (g'.closed ≡ false)
    → (copies : List Message) × (g'' : GoChannel) × (begin_publish messages g ≡ Result.ok copies)
      × CopiesOf g.config messages copies
      × (publish_copies topic copies g'
          ≡ (Outcome.done (map (λ m. (m, topic_subscribers g' topic)) copies), g''))
      × StoresMore topic copies g' g''
      × (g''.subscribers ≡ g'.subscribers)
unfolding begin_publish
publish_delivers config g g' topic messages fine r o later safe =
    let v = Reachable-IsValid config g' (Later-Reachable config g r later) in
    let ms = messages_to_publish g.config messages in
    let stored = is_stored g' v safe in
    (
      ms,
      with_messages topic ms g',
      ap (λ b. if b then Result.fail pub_sub_closed else Result.ok ms) o,
      messages_to_publish-CopiesOf g.config messages fine,
      publish_copies_done topic ms g' stored
          ∙ ap (λ sent. (Outcome.done sent, with_messages topic ms g')) (send_all-map g' topic ms),
      λ t. persisted_in-stored topic t ms g'.config.persistent g'.persisted_messages stored,
      refl,
    )
