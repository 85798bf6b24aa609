-- ===== src/Examples/Replies.antt =====
-- The theorem on request and reply at a concrete command.
use watermill.Prelude.{ℕ, true, ◌==◌, if◌then◌else◌, none, some, List, [], ◌∷◌, ◌≡◌, refl, sym}
use watermill.Go.{Err, Outcome, Result, Context, pure, ◌>>=◌}
use watermill.Message.Headers
use watermill.Message.Defs.{new_message, set_context}
use watermill.Message.Ack.{Call}
use watermill.Runtime.{World, alloc, set_metadata, on_message}
use watermill.Router.Settlement.{settle_at}
use watermill.RequestReply.Defs.{
  ProcessedParams, ReplyJson, json_reply_marshaler, marshal_json_reply, set_error, with_payload,
  set_payload, operation_id_metadata_key,
}
use watermill.RequestReply.Backend.{
  PubSubBackendConfig, on_command_processed, publish_error, after_publish, handle_notify_msg,
}
use watermill.RequestReply.Notifying.{notified}
use watermill.RequestReply.RoundTrip.{reply_reaches_listener}
use watermill.Examples.Data.{Log, plain, world, recorder, open≢closed}

abbrev json : ReplyJson Log (List ℕ)
json = record {
  marshal = λ r. Result.ok r;
  unmarshal = λ b. Result.ok b;
  new_uuid = pure "uuid";
  error_text = λ e. "failed";
}

abbrev backend : PubSubBackendConfig Log (List ℕ)
backend = record {
  publisher = some recorder;
  subscriber_constructor = none;
  generate_publish_topic = some (λ params. pure (Result.ok "replies"));
  generate_subscribe_topic = none;
  modify_notification_message = none;
  ack_command_errors = true;
  reply_publish_error_handler = none;
}

-- messages of an operation
abbrev operating : World Log
operating = record world {
  cells = λ _. record plain { metadata = some ((operation_id_metadata_key, "op") ∷ []) };
}

abbrev processed : ProcessedParams (List ℕ) (List ℕ)
processed = record {
  command = 1 ∷ [];
  command_message = 1;
  handler_result = 7 ∷ [];
  handle_err = some (Err.new "boom");
}

abbrev replied : World Log
replied = (marshal_json_reply json processed operating).1

reply_reaches_listener_example :
    (on_command_processed backend (json_reply_marshaler json) Context.background processed operating
      ≡ (do
        failed ← recorder.publish "replies" (5 ∷ [])
        err ← publish_error backend "replies" 5 failed
        pure (after_publish backend (some (Err.new "boom")) err))
          (notified Context.background 5 "op" replied))
    × (handle_notify_msg backend
          (json_reply_marshaler {V = List ℕ} json)
          5
          "op"
          (notified Context.background 5 "op" replied)
        ≡ (
          Outcome.done (
              Result.ok (
                if "op" == "op"
                then some (record {
                  handler_result = 7 ∷ [];
                  error = some (Err.new "failed");
                  notification_message = none;
                })
                else none)),
          settle_at Call.acks 5 (notified Context.background 5 "op" replied),
        ))
unfolding marshal_json_reply new_message alloc set_metadata on_message set_error with_payload
    set_payload Headers.set set_context Headers.get
reply_reaches_listener_example =
    reply_reaches_listener json backend recorder (λ params. pure (Result.ok "replies")) processed
      Context.background operating replied (notified Context.background 5 "op" replied)
      (notified Context.background 5 "op" replied) 5 5 "op" "replies" "op" (λ r b e. sym e) refl
      refl refl refl refl refl refl (refl, refl) (open≢closed, open≢closed)
