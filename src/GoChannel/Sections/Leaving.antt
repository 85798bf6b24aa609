-- ===== src/GoChannel/Sections/Leaving.antt =====
-- The section that removes a subscriber keeps the invariant of the registry.
use watermill.Prelude.{
  ℕ, ◌+◌, ◌-◌, ◌<◌, ◌∷◌, String, Bool, true, false, ◌&&◌, not, eq_iff, eq_refl, none, some, List,
  [], lookup, insert, delete, length, lookup-insert, insert-HasUniqueKeys, lookup-delete,
  delete-HasUniqueKeys, ◌≡◌, refl, sym, subst, ◌≢◌, arith, ◌⊎◌, inl, inr, Option-cases,
}
use watermill.Go.{Outcome}
use watermill.GoChannel.Defs.{
  GoChannel, without, remove_subscriber, load_lock, is_empty, topic_subscribers, unsubscribe,
}
use watermill.GoChannel.Counting.{count, total-insert, total-delete, without_lem, length-total}
use watermill.GoChannel.Sections.{IsValid}

-- the registry without the subscriber, where `others` are left on the topic, which may go
abbrev pub without_subscriber : Bool → String → List ℕ → GoChannel → GoChannel
without_subscriber false topic others g = record g {
  waiting = g.waiting - 1;
  subscribers = insert topic others g.subscribers;
}
without_subscriber true topic others g = record g {
  waiting = g.waiting - 1;
  topic_locks = delete topic g.topic_locks;
  subscribers = delete topic (insert topic others g.subscribers);
}

abbrev pub topic_goes : List ℕ → GoChannel → Bool
topic_goes others g = is_empty others && not g.config.persistent

pub unsubscribe_lem :
    (topic : String) (s : ℕ) (g : GoChannel) (others subs : List ℕ)
    → lookup topic g.topic_locks ≢ none
    → lookup topic g.subscribers ≡ some subs
    → without s subs ≡ some others
    → 0 < g.waiting
    → unsubscribe topic s g
      ≡ (Outcome.done tt, without_subscriber (topic_goes others g) topic others g)
unfolding unsubscribe load_lock remove_subscriber topic_subscribers
unsubscribe_lem topic s g others subs l h e w = ground arith

without_subscriber-IsValid :
    (b : Bool) (topic : String) (g : GoChannel) (others subs : List ℕ)
    → lookup topic g.topic_locks ≢ none
    → lookup topic g.subscribers ≡ some subs
    → length others + 1 ≡ length subs
    → (b ≡ false) ⊎ (others ≡ [])
    → IsValid g
    → IsValid (without_subscriber b topic others g)
without_subscriber-IsValid false topic g others subs l h len d v = record {
  unique_subscribers = insert-HasUniqueKeys _ _ _ v.unique_subscribers;
  unique_locks = v.unique_locks;
  locked =
      λ t. ground (arith, v.locked t, eq_iff topic t, lookup-insert topic t others g.subscribers);
  counted = ground (arith, v.counted, total-insert topic others g.subscribers);
  usable = v.usable;
}
without_subscriber-IsValid true topic g others subs l h len d v =
    let u = insert-HasUniqueKeys topic others g.subscribers v.unique_subscribers in
    record {
      unique_subscribers = delete-HasUniqueKeys _ _ u;
      unique_locks = delete-HasUniqueKeys _ _ v.unique_locks;
      locked = λ t. ground (
        arith,
        v.locked t,
        eq_iff topic t,
        lookup-delete topic t g.topic_locks v.unique_locks,
        lookup-delete topic t (insert topic others g.subscribers) u,
        lookup-insert topic t others g.subscribers,
      );
      counted = ground (
        arith,
        v.counted,
        eq_refl topic,
        total-insert topic others g.subscribers,
        lookup-insert topic topic others g.subscribers,
        total-delete topic (insert topic others g.subscribers),
      );
      usable = v.usable;
    }

-- a subscriber that stands in the registry
abbrev pub IsThere : ℕ → String → GoChannel → Type 0
IsThere s topic g = 0 < count s (topic_subscribers g topic)

-- what IsThere and the invariant say of the maps
pub there_lem :
    (topic : String) (s : ℕ) (g : GoChannel)
    → IsValid g
    → IsThere s topic g
    → (subs : List ℕ) × (lookup topic g.subscribers ≡ some subs)
      × (0 < count s subs)
      × (lookup topic g.topic_locks ≢ none)
unfolding topic_subscribers
there_lem topic s g v h = elim (Option-cases (lookup topic g.subscribers)) [
  | inl e ↦ ground arith
  | inr (subs, e) ↦ (subs, e, ground arith, ground (arith, v.locked topic))
]

pub topic_goes_lem :
    (others : List ℕ) (g : GoChannel) → (topic_goes others g ≡ false) ⊎ (others ≡ [])
topic_goes_lem [] g = inr refl
topic_goes_lem (s ∷ others) g = inl refl

pub unsubscribe-IsValid :
    (topic : String) (s : ℕ) (g : GoChannel)
    → IsValid g
    → IsThere s topic g
    → IsValid (unsubscribe topic s g).1
unsubscribe-IsValid topic s g v h =
    let (subs, e, c, l) = there_lem topic s g v h in
    let (others, e', _, len) = without_lem s subs c in
    let t = length-total topic subs g.subscribers e in
    subst (λ r. IsValid r.1)
      (sym (unsubscribe_lem topic s g others subs l e e' (ground (arith, v.counted))))
      (without_subscriber-IsValid (topic_goes others g) topic g others subs l e len
        (topic_goes_lem others g) v)
