-- ===== src/Middleware/PoisonPublishes.antt =====
-- What the poison queue does with a message whose handling failed.
use watermill.Prelude.{
  ℕ, String, true, ◌==◌, if◌then◌else◌, Option, none, some, List, [], ◌∷◌, ◌≡◌, refl, ◌∙◌, ap,
}
use watermill.Go.{Err, Outcome, Context, pure, ◌>>=◌, >>=-done}
use watermill.Message.Headers
use watermill.Message.Defs.{Message, context_of}
use watermill.Runtime.{World, M, message_context, read}
use watermill.Runtime.Laws.{
  IsWritable, written, written-IsWritable, get-written, set_metadata_then, written_at, map_cell,
  map_cell-map_cell,
}
use watermill.PubSub.{HandlerFunc}
use watermill.Router.Handling.{
  subscribe_topic_from_ctx, handler_name_from_ctx, subscriber_name_from_ctx,
}
use watermill.Middleware.Poison.{
  PoisonQueue, publish_with_context, publish_poison_message, salvage, salvaged,
  poison_queue_middleware, reason_for_poisoned_key, poisoned_topic_key, poisoned_handler_key,
  poisoned_subscriber_key,
}

-- the message that goes to the poison queue, with what the context says of its handling
with_context : Context → Message → Message
with_context c m = written poisoned_subscriber_key (subscriber_name_from_ctx c) (
    written poisoned_handler_key (handler_name_from_ctx c)
      (written poisoned_topic_key (subscribe_topic_from_ctx c) m))

context_of-ctx : (m m' : Message) → m.ctx ≡ m'.ctx → context_of m ≡ context_of m'
unfolding context_of
context_of-ctx m m' e = ap (λ c. context_of (record m { ctx = c })) e

module _ {S : Type 0} (pq : PoisonQueue S) (msg : ℕ) where
  publish_with_context_lem :
      (c : Context) (w : World S)
      → IsWritable (w.cells msg)
      → publish_with_context pq msg c w
        ≡ pq.publisher.publish pq.topic (msg ∷ []) (map_cell (with_context c) msg w)
  unfolding publish_with_context with_context
  publish_with_context_lem c w v =
      let t2 = subscribe_topic_from_ctx c in
      let t3 = handler_name_from_ctx c in
      let t4 = subscriber_name_from_ctx c in
      let f2 = written poisoned_topic_key t2 in
      let f3 = written poisoned_handler_key t3 in
      let f4 = written poisoned_subscriber_key t4 in
      let w2 = map_cell f2 msg w in
      let w3 = map_cell f3 msg w2 in
      let v2 = (written_at poisoned_topic_key t2 msg w v).0 in
      let v3 = (written_at poisoned_handler_key t3 msg w2 v2).0 in
      set_metadata_then msg poisoned_topic_key t2 _ w v
      ∙ set_metadata_then msg poisoned_handler_key t3 _ w2 v2
      ∙ set_metadata_then msg poisoned_subscriber_key t4 _ w3 v3
      ∙ ap (pq.publisher.publish pq.topic (msg ∷ [])) (
          ap (map_cell f4 msg) (map_cell-map_cell f2 f3 msg w)
          ∙ map_cell-map_cell (λ m. f3 (f2 m)) f4 msg w)

-- the message as publishPoisonMessage publishes it
pub poisoned : (Err → String) → Err → Message → Message
unfolding with_context
poisoned error_text err m =
    with_context (context_of m) (written reason_for_poisoned_key (error_text err) m)

-- Four metadata entries say why and where the handling failed; the others are as they were.
abbrev pub reads_as : String → Message → String → String
reads_as reason before k =
    if poisoned_subscriber_key == k
    then subscriber_name_from_ctx (context_of before)
    else if poisoned_handler_key == k
    then handler_name_from_ctx (context_of before)
    else if poisoned_topic_key == k
    then subscribe_topic_from_ctx (context_of before)
    else if reason_for_poisoned_key == k
    then reason
    else Headers.get before.metadata k

-- The later message is the earlier one but for its metadata, which say why its handling failed.
pub record SaysWhy (reason : String) (before later : Message) : Type 0 where
  pub metadata : (k : String) → Headers.get later.metadata k ≡ reads_as reason before k
  pub rest : record later { metadata = none } ≡ record before { metadata = none }

poisoned-SaysWhy :
    (error_text : Err → String) (err : Err) (m : Message)
    → IsWritable m
    → SaysWhy (error_text err) m (poisoned error_text err m)
unfolding poisoned
poisoned-SaysWhy error_text err m v =
    let c = context_of m in
    let m1 = written reason_for_poisoned_key (error_text err) m in
    let m2 = written poisoned_topic_key (subscribe_topic_from_ctx c) m1 in
    let m3 = written poisoned_handler_key (handler_name_from_ctx c) m2 in
    let v1 = written-IsWritable reason_for_poisoned_key (error_text err) m v in
    let v2 = written-IsWritable poisoned_topic_key (subscribe_topic_from_ctx c) m1 v1 in
    let v3 = written-IsWritable poisoned_handler_key (handler_name_from_ctx c) m2 v2 in
    record {
      metadata = λ k.
          let e1 = get-written reason_for_poisoned_key (error_text err) m k v in
          let e2 = get-written poisoned_topic_key (subscribe_topic_from_ctx c) m1 k v1 in
          let e3 = get-written poisoned_handler_key (handler_name_from_ctx c) m2 k v2 in
          get-written poisoned_subscriber_key (subscriber_name_from_ctx c) m3 k v3
          ∙ ap (λ x. if poisoned_subscriber_key == k then subscriber_name_from_ctx c else x)
              (e3
                ∙ ap (λ x. if poisoned_handler_key == k then handler_name_from_ctx c else x)
                    (e2
                      ∙ ap (λ x. if poisoned_topic_key == k then subscribe_topic_from_ctx c else x)
                          e1));
      rest = refl;
    }

module _ {S : Type 0} (error_text : Err → String) (pq : PoisonQueue S) (h : HandlerFunc S) where
  publish_poison_message_lem :
      (msg : ℕ) (err : Err) (w : World S)
      → IsWritable (w.cells msg)
      → publish_poison_message error_text pq msg err w
        ≡ pq.publisher.publish pq.topic (msg ∷ []) (map_cell (poisoned error_text err) msg w)
  unfolding publish_poison_message message_context read poisoned
  publish_poison_message_lem msg err w v =
      let f = written reason_for_poisoned_key (error_text err) in
      let (v1, e) = written_at reason_for_poisoned_key (error_text err) msg w v in
      set_metadata_then msg reason_for_poisoned_key (error_text err) _ w v
      ∙ ap (λ c. publish_with_context pq msg c (map_cell f msg w))
          (context_of-ctx ((map_cell f msg w).cells msg) (w.cells msg) e)
      ∙ publish_with_context_lem pq msg (context_of (w.cells msg)) (map_cell f msg w) v1
      ∙ ap (pq.publisher.publish pq.topic (msg ∷ []))
          (map_cell-map_cell f (with_context (context_of (w.cells msg))) msg w)

  -- The handler function has returned an error that should go to the poison queue, and the metadata
  -- of the message can be written. Then the message is published to the queue's topic, with metadata
  -- that say why and where its handling failed; the error is dropped if that succeeds, and joined
  -- with that of the publisher if not. The events of the handler function are returned.
  pub poison_queue_publishes :
      (msg : ℕ) (events : List ℕ) (err : Err) (publish_err : Option Err) (w w1 w3 : World S)
      → h msg w ≡ (Outcome.done (events, some err), w1)
      → pq.should_go_to_poison_queue err ≡ true
      → IsWritable (w1.cells msg)
      → pq.publisher.publish pq.topic (msg ∷ []) (map_cell (poisoned error_text err) msg w1)
        ≡ (Outcome.done publish_err, w3)
      → (poison_queue_middleware error_text pq h msg w
          ≡ (Outcome.done (salvaged events err publish_err), w3))
        × SaysWhy (error_text err) (w1.cells msg) (poisoned error_text err (w1.cells msg))
  unfolding poison_queue_middleware salvage
  poison_queue_publishes msg events err publish_err w w1 w3 e should v p =
      let p' = publish_poison_message_lem msg err w1 v ∙ p in
      let saved : Option Err → M S (List ℕ × Option Err) = λ o. pure (salvaged events err o) in
      (
        >>=-done (h msg) (salvage error_text pq msg) e
            ∙ ap
                (λ b.
                  (if b
                      then (publish_poison_message error_text pq msg err >>= saved)
                      else pure (events, some err))
                    w1)
                should
            ∙ >>=-done (publish_poison_message error_text pq msg err) saved p',
        poisoned-SaysWhy error_text err (w1.cells msg) v,
      )
