-- ===== src/RequestReply/Backend.antt =====
-- components/requestreply: backend_pubsub.go and handler.go. The loggers are left out, and setDefaults
-- with them.
use watermill.Prelude.{ℕ, String, Bool, ◌==◌, if◌then◌else◌, Option, none, some, List, [], ◌∷◌}
use watermill.Go.{Err, Result, Context, pure, defer_call, ◌>>=◌, ◌>>◌}
use watermill.Runtime.{M, read, get_metadata, set_metadata, set_message_context, ack_message}
use watermill.PubSub.{Publisher, Subscriber}
use watermill.Cqrs.Defs.{CommandHandler, needs, original_message_from_ctx}
use watermill.Cqrs.Buses.{missing}
use watermill.RequestReply.Defs.{
  Reply, ProcessedParams, Backend, ReplyMarshaler, operation_id_metadata_key,
}

-- PubSubBackendPublishParams
pub record PublishParams (V : Type 0) : Type 0 where
  pub command : V
  pub command_message : ℕ
  pub operation_id : String

-- PubSubBackendConfig without its logger and what it calls when the listening ends
pub record PubSubBackendConfig (S V : Type 0) : Type 0 where
  pub publisher : Option (Publisher S)
  pub subscriber_constructor : Option (V → String → M S (Result (Subscriber S)))
  pub generate_publish_topic : Option (PublishParams V → M S (Result String))
  pub generate_subscribe_topic : Option (V → String → M S (Result String))
  pub modify_notification_message : Option (ℕ → Option Err → PublishParams V → M S (Option Err))
  pub ack_command_errors : Bool
  pub reply_publish_error_handler : Option (String → ℕ → Err → M S (Option Err))

abbrev pub publish_params : {V : Type 0} → V → ℕ → String → PublishParams V
publish_params command command_message id = record {
  command = command;
  command_message = command_message;
  operation_id = id;
}

abbrev pub no_operation_id : Err
no_operation_id = Err.new "cannot get notification ID from command message metadata"

module _ {S V : Type 0} where
  -- PubSubBackendConfig.Validate
  unfoldable pub validate_backend : PubSubBackendConfig S V → Option Err
  validate_backend c = missing c.generate_subscribe_topic "GenerateSubscribeTopic cannot be nil" (
      missing c.generate_publish_topic "GeneratePublishTopic cannot be nil" (
        missing c.subscriber_constructor "subscriber constructor cannot be nil"
          (missing c.publisher "publisher cannot be nil" none)))

  -- ModifyNotificationMessage, if there is one
  unfoldable pub modify :
      PubSubBackendConfig S V → ℕ → Option Err → PublishParams V → M S (Option Err)
  modify c msg handle_err params = elim c.modify_notification_message [
    | none ↦ pure none
    | some f ↦ f msg handle_err params
  ]

  -- the error of Publish, or what ReplyPublishErrorHandler makes of it
  unfoldable pub publish_error :
      PubSubBackendConfig S V → String → ℕ → Option Err → M S (Option Err)
  publish_error c topic msg none = pure none
  publish_error c topic msg (some e) = elim c.reply_publish_error_handler [
    | none ↦ pure (some e)
    | some f ↦ f topic msg e
  ]

  -- the end of OnCommandProcessed
  unfoldable pub after_publish : PubSubBackendConfig S V → Option Err → Option Err → Option Err
  after_publish c handle_err (some e) = some (Err.wrap e "cannot publish command executed message")
  after_publish c handle_err none = if c.ack_command_errors then none else handle_err

  unfoldable pub publish_reply :
      PubSubBackendConfig S V → Option Err → ℕ → Result String → M S (Option Err)
  unfolding publish_error after_publish
  publish_reply c handle_err msg (Result.fail e) =
      pure (some (Err.wrap e "cannot generate request/reply notify topic"))
  publish_reply c handle_err msg (Result.ok topic) = needs c.publisher λ publisher. do
    failed ← publisher.publish topic (msg ∷ [])
    err ← publish_error c topic msg failed
    pure (after_publish c handle_err err)

  unfoldable pub after_modify :
      PubSubBackendConfig S V → Option Err → ℕ → PublishParams V → Option Err → M S (Option Err)
  unfolding publish_reply
  after_modify c handle_err msg params (some e) =
      pure (some (Err.wrap e "cannot modify notification message"))
  after_modify c handle_err msg params none =
      needs c.generate_publish_topic
        λ generate. do topic ← generate params; publish_reply c handle_err msg topic

  unfoldable pub modify_and_publish :
      PubSubBackendConfig S V → Option Err → ℕ → PublishParams V → M S (Option Err)
  unfolding modify after_modify
  modify_and_publish c handle_err msg params = do
    err ← modify c msg handle_err params
    after_modify c handle_err msg params err

  -- OnCommandProcessed from where the operation's ID has been read
  unfoldable pub with_operation_id :
      PubSubBackendConfig S V → V → ℕ → Option Err → ℕ → String → M S (Option Err)
  unfolding set_metadata modify_and_publish
  with_operation_id c command command_message handle_err msg id =
      if id == "" then pure (some no_operation_id) else (do
        set_metadata msg operation_id_metadata_key id
        modify_and_publish c handle_err msg (publish_params command command_message id))

module _ {S V R : Type 0} (c : PubSubBackendConfig S V) (marshaler : ReplyMarshaler S V R) where
  unfoldable pub notify : Context → ProcessedParams V R → Result ℕ → M S (Option Err)
  unfolding set_message_context get_metadata with_operation_id
  notify ctx params (Result.fail e) =
      pure (some (Err.wrap e "cannot marshal request reply notification"))
  notify ctx params (Result.ok msg) = do
    set_message_context ctx msg
    id ← get_metadata params.command_message operation_id_metadata_key
    with_operation_id c params.command params.command_message params.handle_err msg id

  -- PubSubBackend.OnCommandProcessed
  unfoldable pub on_command_processed : Context → ProcessedParams V R → M S (Option Err)
  unfolding notify
  on_command_processed ctx params = do msg ← marshaler.marshal_reply params; notify ctx params msg

  -- PubSubBackend.handleNotifyMsg: no reply if the message is for another operation
  unfoldable pub handle_notify_msg : ℕ → String → M S (Result (Option (Reply R)))
  unfolding ack_message get_metadata read
  handle_notify_msg msg expected = defer_call (ack_message msg) (do
    id ← get_metadata msg operation_id_metadata_key
    (if id == expected
        then (do
          reply ← read msg marshaler.unmarshal_reply
          pure (elim reply [ Result.fail e ↦ Result.fail e | Result.ok r ↦ Result.ok (some r) ]))
        else pure (Result.ok none)))

-- what the goroutine of ListenForNotifications receives
pub data Arrival : Type 0 where
  context_done : Err → Arrival
  subscriber_closed : Arrival
  notification : ℕ → Arrival

abbrev failed_reply : {R : Type 0} → R → Err → Reply R
failed_reply zero e = record { handler_result = zero; error = some e; notification_message = none }

module _ {S V R : Type 0} (c : PubSubBackendConfig S V) (marshaler : ReplyMarshaler S V R)
    (zero : R) where
  -- the reply, if any, that one notification leads to
  unfoldable pub reply_to : ℕ → Result (Option (Reply R)) → Option (Reply R)
  reply_to msg (Result.fail e) = some (failed_reply zero (Err.wrap e "cannot unmarshal reply"))
  reply_to msg (Result.ok none) = none
  reply_to msg (Result.ok (some r)) = some (record r { notification_message = some msg })

  cons_reply : Option (Reply R) → List (Reply R) → List (Reply R)
  cons_reply none rs = rs
  cons_reply (some r) rs = r ∷ rs

  -- the loop of that goroutine: the replies that it sends, while it receives these; ReplyTimeoutError
  -- without its duration
  unfoldable pub listen : String → List Arrival → M S (List (Reply R))
  unfolding handle_notify_msg reply_to cons_reply
  listen id [] = pure []
  listen id (Arrival.context_done e ∷ arrivals) =
      pure (failed_reply zero (Err.wrap e "reply timeout") ∷ [])
  listen id (Arrival.subscriber_closed ∷ arrivals) =
      pure (failed_reply zero (Err.wrap (Err.new "subscriber closed") "reply timeout") ∷ [])
  listen id (Arrival.notification msg ∷ arrivals) = do
    handled ← handle_notify_msg c marshaler msg id
    rest ← listen id arrivals
    pure (cons_reply (reply_to msg handled) rest)

abbrev pub original_missing : Err
original_missing = Err.new "original message not found in context"

module _ {S V R : Type 0} where
  -- NewCommandHandlerWithResult; NewCommandHandler is the same without a result
  unfoldable pub new_command_handler_with_result :
      String → V → Backend S V R → (Context → V → M S (R × Option Err)) → CommandHandler S V
  unfolding original_message_from_ctx
  new_command_handler_with_result name new_command backend f = record {
    handler_name = name;
    new_command = new_command;
    handle = λ ctx cmd. (do
      out ← f ctx cmd
      elim (original_message_from_ctx ctx) [
        | none ↦ pure (some original_missing)
        | some msg ↦ backend.on_command_processed ctx (record {
          command = cmd;
          command_message = msg;
          handler_result = out.0;
          handle_err = out.1;
        })
      ]);
  }
