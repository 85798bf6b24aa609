-- ===== src/RequestReply/Notifying.antt =====
-- A notification as it is published, and what a listener makes of it.
use watermill.Prelude.{
  ℕ, String, false, ◌==◌, eq_refl, if◌then◌else◌, Option, none, some, List, [], ◌∷◌, ◌≡◌, refl, ap,
  sym, ◌∙◌, arith, =ℕ_refl, Bool-cases, inl, inr,
}
use watermill.Go.{Err, Outcome, Result, Context, pure, ◌>>=◌, >>=-done}
use watermill.Message.Headers
use watermill.Message.Defs.{Message, set_context}
use watermill.Message.Ack.{Call}
use watermill.Message.Settlement.{IsConsistent}
use watermill.Runtime.{World, M, read, on_message, get_metadata, set_message_context}
use watermill.Runtime.Laws.{written, map_cell, IsWritable, get-written, set_metadata_then}
use watermill.PubSub.{Publisher}
use watermill.Router.Settlement.{settle_at, ack_message_lem}
use watermill.Cqrs.RoundTrip.{SameContent}
use watermill.RequestReply.Defs.{
  Reply, ProcessedParams, ReplyJson, ReplyMarshaler, json_reply_marshaler, with_result, reply_error,
  operation_id_metadata_key, has_error_metadata_key, error_metadata_key,
}
use watermill.RequestReply.Replies.{sent_error, IsReply}
use watermill.RequestReply.Backend.{
  PubSubBackendConfig, PublishParams, on_command_processed, notify, with_operation_id, modify,
  after_modify, modify_and_publish, publish_params, publish_reply, publish_error, after_publish,
  handle_notify_msg,
}

-- encoding/json reads back the results that it has written.
abbrev pub ReadsResults : {S R : Type 0} → ReplyJson S R → Type 0
ReadsResults {R = R} json =
    (r : R) (b : List ℕ) → json.marshal r ≡ Result.ok b → json.unmarshal b ≡ Result.ok r

-- the world in which the notification has its context and the operation's ID
abbrev pub notified : {S : Type 0} → Context → ℕ → String → World S → World S
notified ctx msg id w =
    map_cell (written operation_id_metadata_key id) msg (map_cell (set_context ctx) msg w)

notified_cell :
    {S : Type 0} (ctx : Context) (msg : ℕ) (id : String) (w : World S)
    → (notified ctx msg id w).cells msg
      ≡ written operation_id_metadata_key id (set_context ctx (w.cells msg))
notified_cell ctx msg id w = ground (arith, =ℕ_refl msg)

-- the metadata of a message with the content of the notification
get-notified :
    {S : Type 0} (ctx : Context) (msg : ℕ) (id : String) (w : World S) (m : Message) (j : String)
    → IsWritable (w.cells msg)
    → SameContent ((notified ctx msg id w).cells msg) m
    → Headers.get m.metadata j
      ≡ (if operation_id_metadata_key == j then id else Headers.get (w.cells msg).metadata j)
unfolding set_context
get-notified ctx msg id w m j writable (p, q) =
    ap (λ md. Headers.get md j) (q ∙ ap (λ n. n.metadata) (notified_cell ctx msg id w))
    ∙ get-written operation_id_metadata_key id (set_context ctx (w.cells msg)) j writable

metadata_kept :
    {S : Type 0} (ctx : Context) (msg q : ℕ) (w : World S)
    → ((map_cell (set_context ctx) msg w).cells q).metadata ≡ (w.cells q).metadata
unfolding set_context
metadata_kept ctx msg q w = ground arith

set_context-IsWritable :
    {S : Type 0} (ctx : Context) (msg : ℕ) (w : World S)
    → IsWritable (w.cells msg)
    → IsWritable ((map_cell (set_context ctx) msg w).cells msg)
set_context-IsWritable ctx msg w writable e = writable (sym (metadata_kept ctx msg msg w) ∙ e)

module _ {S V R : Type 0} (json : ReplyJson S R) (c : PubSubBackendConfig S V) where
  -- what a listener for the operation makes of a message with the content of the notification
  pub reply_read :
      (params : ProcessedParams V R) (b : List ℕ) (ctx : Context) (msg : ℕ) (id : String)
      (w : World S) (m : Message)
      → ReadsResults json
      → json.marshal params.handler_result ≡ Result.ok b
      → IsReply json params.handle_err b (w.cells msg)
      → SameContent ((notified ctx msg id w).cells msg) m
      → ((json_reply_marshaler {V = V} json).unmarshal_reply m
          ≡ Result.ok (record {
            handler_result = params.handler_result;
            error = sent_error json params.handle_err;
            notification_message = none;
          }))
        × (Headers.get m.metadata operation_id_metadata_key ≡ id)
  unfolding json_reply_marshaler with_result reply_error set_context
  reply_read params b ctx msg id w m reads marshaled reply same =
      let payload : m.payload ≡ b =
        same.0 ∙ ap (λ n. n.payload) (notified_cell ctx msg id w) ∙ reply.payload in
      let get = get-notified ctx msg id w m in
      (
        rw (payload, reads params.handler_result b marshaled)
            (ap (λ err. with_result json err (Result.ok params.handler_result))
              (error (get has_error_metadata_key reply.writable same)
                (get error_metadata_key reply.writable same))),
        get operation_id_metadata_key reply.writable same
            ∙ ap
                (λ x.
                  if x then id else Headers.get (w.cells msg).metadata operation_id_metadata_key)
                (eq_refl operation_id_metadata_key),
      )
    where
      error :
          Headers.get m.metadata has_error_metadata_key
            ≡ Headers.get (w.cells msg).metadata has_error_metadata_key
          → Headers.get m.metadata error_metadata_key
            ≡ Headers.get (w.cells msg).metadata error_metadata_key
          → reply_error json m ≡ sent_error json params.handle_err
      error has text = rw (has, text) reply.error

  modified :
      (publisher : Publisher S) (generate : PublishParams V → M S (Result String))
      (handle_err : Option Err) (params : PublishParams V) (w2 : World S) (msg : ℕ) (topic : String)
      (w : World S)
      → c.publisher ≡ some publisher
      → c.generate_publish_topic ≡ some generate
      → c.modify_notification_message ≡ none
      → generate params w ≡ (Outcome.done (Result.ok topic), w2)
      → modify_and_publish c handle_err msg params w
        ≡ (do
          failed ← publisher.publish topic (msg ∷ [])
          err ← publish_error c topic msg failed
          pure (after_publish c handle_err err))
            w2
  unfolding modify_and_publish modify after_modify publish_reply
  modified publisher generate handle_err params w2 msg topic w has_p has_g no_modify generated =
      rw (no_modify, has_g, generated, has_p) refl

  -- OnCommandProcessed, where nothing fails before the notification is published
  pub notification_published :
      (m : ReplyMarshaler S V R) (publisher : Publisher S)
      (generate : PublishParams V → M S (Result String)) (params : ProcessedParams V R)
      (ctx : Context) (w w1 w2 : World S) (msg : ℕ) (id topic : String)
      → c.publisher ≡ some publisher
      → c.generate_publish_topic ≡ some generate
      → c.modify_notification_message ≡ none
      → m.marshal_reply params w ≡ (Outcome.done (Result.ok msg), w1)
      → IsWritable (w1.cells msg)
      → Headers.get (w1.cells params.command_message).metadata operation_id_metadata_key ≡ id
      → (id == "") ≡ false
      → generate (publish_params params.command params.command_message id) (notified ctx msg id w1)
        ≡ (Outcome.done (Result.ok topic), w2)
      → on_command_processed c m ctx params w
        ≡ (do
          failed ← publisher.publish topic (msg ∷ [])
          err ← publish_error c topic msg failed
          pure (after_publish c params.handle_err err))
            w2
  unfolding on_command_processed notify with_operation_id get_metadata set_message_context
      on_message read set_context
  notification_published m publisher generate params ctx w w1 w2 msg id topic has_p has_g no_modify
        marshaled writable has_id some_id generated =
      let p = publish_params params.command params.command_message id in
      let w' = map_cell (set_context ctx) msg w1 in
      let same_id : Headers.get (w'.cells params.command_message).metadata operation_id_metadata_key
          ≡ id =
        ap (λ md. Headers.get md operation_id_metadata_key)
          (metadata_kept ctx msg params.command_message w1)
        ∙ has_id in
      >>=-done (m.marshal_reply params) (notify c m ctx params) marshaled
      ∙ ap
          (λ i.
            with_operation_id c params.command params.command_message params.handle_err msg i w')
          same_id
      ∙ rw some_id (
          set_metadata_then msg operation_id_metadata_key id
            (modify_and_publish c params.handle_err msg p) w'
            (set_context-IsWritable ctx msg w1 writable)
          ∙ modified publisher generate params.handle_err p w2 msg topic (notified ctx msg id w1)
              has_p has_g no_modify generated)

  -- a listener that is for the operation, or for another
  pub notification_handled :
      (m : ReplyMarshaler S V R) (q : ℕ) (id expected : String) (reply : Reply R) (w : World S)
      → Headers.get (w.cells q).metadata operation_id_metadata_key ≡ id
      → m.unmarshal_reply (w.cells q) ≡ Result.ok reply
      → IsConsistent (w.cells q)
      → handle_notify_msg c m q expected w ≡ (
        Outcome.done (Result.ok (if id == expected then some reply else none)),
        settle_at Call.acks q w,
      )
  unfolding handle_notify_msg get_metadata read
  notification_handled m q id expected reply w has_id read_reply v =
      elim (Bool-cases (id == expected)) [
        | inl e ↦ rw (has_id, e, read_reply, ack_message_lem q w v) refl
        | inr e ↦ rw (has_id, e, ack_message_lem q w v) refl
      ]
