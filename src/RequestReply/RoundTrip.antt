-- ===== src/RequestReply/RoundTrip.antt =====
-- The reply that a listener gets is the one that the command's handler sent.
use watermill.Prelude.{ℕ, String, false, ◌==◌, if◌then◌else◌, none, some, [], ◌∷◌, ◌≡◌}
use watermill.Go.{Outcome, Result, Context, pure, ◌>>=◌}
use watermill.Message.Headers
use watermill.Message.Ack.{Call}
use watermill.Message.Settlement.{IsConsistent}
use watermill.Runtime.{World, M}
use watermill.PubSub.{Publisher}
use watermill.Router.Settlement.{settle_at}
use watermill.Cqrs.RoundTrip.{SameContent}
use watermill.RequestReply.Defs.{
  ProcessedParams, ReplyJson, json_reply_marshaler, marshal_json_reply, operation_id_metadata_key,
}
use watermill.RequestReply.Replies.{sent_error, marshal_json_reply-IsReply}
use watermill.RequestReply.Backend.{
  PubSubBackendConfig, PublishParams, on_command_processed, publish_params, publish_error,
  after_publish, handle_notify_msg,
}
use watermill.RequestReply.Notifying.{
  ReadsResults, notified, reply_read, notification_published, notification_handled,
}

module _ {S V R : Type 0} (json : ReplyJson S R) (c : PubSubBackendConfig S V) where
  -- With JSON that reads back the results that it has written, a publisher, a generated topic and no
  -- hook on notifications: when the reply has been marshaled and the message of the command has an
  -- operation's ID, OnCommandProcessed publishes one notification, to that topic, and returns what the
  -- handler returned, or nil with AckCommandErrors, unless publishing failed; and when a message with
  -- the content of the notification, whose channels agree with its settlement, reaches a listener, the
  -- listener calls Ack on it and takes from it the handler's result and the text of its error exactly
  -- if it listens for this operation.
  pub reply_reaches_listener :
      (publisher : Publisher S) (generate : PublishParams V → M S (Result String))
      (params : ProcessedParams V R) (ctx : Context) (w w1 w2 later : World S) (msg q : ℕ)
      (id topic expected : String)
      → ReadsResults json
      → c.publisher ≡ some publisher
      → c.generate_publish_topic ≡ some generate
      → c.modify_notification_message ≡ none
      → marshal_json_reply json params w ≡ (Outcome.done (Result.ok msg), w1)
      → Headers.get (w1.cells params.command_message).metadata operation_id_metadata_key ≡ id
      → (id == "") ≡ false
      → generate (publish_params params.command params.command_message id) (notified ctx msg id w1)
        ≡ (Outcome.done (Result.ok topic), w2)
      → SameContent ((notified ctx msg id w1).cells msg) (later.cells q)
      → IsConsistent (later.cells q)
      → (on_command_processed c (json_reply_marshaler json) ctx params w
          ≡ (do
            failed ← publisher.publish topic (msg ∷ [])
            err ← publish_error c topic msg failed
            pure (after_publish c params.handle_err err))
              w2)
        × (handle_notify_msg c (json_reply_marshaler {V = V} json) q expected later ≡ (
          Outcome.done (
              Result.ok (
                if id == expected
                then some (record {
                  handler_result = params.handler_result;
                  error = sent_error json params.handle_err;
                  notification_message = none;
                })
                else none)),
          settle_at Call.acks q later,
        ))
  unfolding json_reply_marshaler
  reply_reaches_listener publisher generate params ctx w w1 w2 later msg q id topic expected reads
        has_p has_g no_modify marshaled has_id some_id generated same v =
      let (b, e, reply) = marshal_json_reply-IsReply json params w w1 msg marshaled in
      let (reads_reply, reads_id) =
        reply_read json c params b ctx msg id w1 (later.cells q) reads e reply same in
      (
        notification_published json c (json_reply_marshaler json) publisher generate params ctx w w1
            w2 msg id topic has_p has_g no_modify marshaled reply.writable has_id some_id generated,
        notification_handled json c (json_reply_marshaler json) q id expected _ later reads_id
            reads_reply v,
      )
