-- ===== src/RequestReply/Defs.antt =====
-- components/requestreply: requestreply.go, backend_pubsub_marshaler.go and command_bus.go. `V` is the
-- type of commands, `R` the type of results; encoding/json, the texts of errors and the random
-- identifiers are parameters.
use watermill.Prelude.{ℕ, String, ◌==◌, if◌then◌else◌, Option, none, some, List, []}
use watermill.Go.{Err, Outcome, Result, Context, pure, ◌>>=◌, ◌>>◌}
use watermill.Message.Headers
use watermill.Message.Defs.{Message, new_message}
use watermill.Runtime.{M, alloc, on_message, set_metadata, with_cancel, cancel}
use watermill.Cqrs.Buses.{CommandBus, send_with_modified_message}

-- Reply; `handler_result` is the zero value of R when there is none
pub record Reply (R : Type 0) : Type 0 where
  pub handler_result : R
  pub error : Option Err
  pub notification_message : Option ℕ

-- BackendOnCommandProcessedParams
pub record ProcessedParams (V R : Type 0) : Type 0 where
  pub command : V
  pub command_message : ℕ
  pub handler_result : R
  pub handle_err : Option Err

-- Backend; a channel of replies is a number
pub record Backend (S V R : Type 0) : Type 0 where
  pub listen_for_notifications : Context → V → String → M S (Result ℕ)
  pub on_command_processed : Context → ProcessedParams V R → M S (Option Err)

-- BackendPubsubMarshaler
pub record ReplyMarshaler (S V R : Type 0) : Type 0 where
  pub marshal_reply : ProcessedParams V R → M S (Result ℕ)
  pub unmarshal_reply : Message → Result (Reply R)

abbrev pub error_metadata_key : String
error_metadata_key = "_watermill_requestreply_error"

abbrev pub has_error_metadata_key : String
has_error_metadata_key = "_watermill_requestreply_has_error"

abbrev pub operation_id_metadata_key : String
operation_id_metadata_key = "_watermill_requestreply_op_id"

pub record ReplyJson (S R : Type 0) : Type 0 where
  pub marshal : R → Result (List ℕ)
  pub unmarshal : List ℕ → Result R
  pub new_uuid : M S String
  pub error_text : Err → String

unfoldable pub set_payload : {S : Type 0} → List ℕ → ℕ → M S (Unit {0})
unfolding on_message
set_payload b p = on_message p λ m. (Outcome.done tt, record m { payload = b })

module _ {S R : Type 0} (json : ReplyJson S R) where
  -- the metadata of a reply for what the handler has returned
  unfoldable pub set_error : Option Err → ℕ → M S (Unit {0})
  unfolding set_metadata
  set_error none msg = set_metadata msg has_error_metadata_key "0"
  set_error (some e) msg = do
    set_metadata msg error_metadata_key (json.error_text e)
    set_metadata msg has_error_metadata_key "1"

  unfoldable pub with_payload : ℕ → Result (List ℕ) → M S (Result ℕ)
  unfolding set_payload
  with_payload msg (Result.fail e) = pure (Result.fail (Err.wrap e "cannot marshal reply"))
  with_payload msg (Result.ok b) = do set_payload b msg; pure (Result.ok msg)

  -- the error that a reply's metadata has
  unfoldable pub reply_error : Message → Option Err
  unfolding Headers.get
  reply_error m =
      if Headers.get m.metadata has_error_metadata_key == "1"
      then some (Err.new (Headers.get m.metadata error_metadata_key))
      else none

  unfoldable pub with_result : Option Err → Result R → Result (Reply R)
  with_result err (Result.fail e) = Result.fail (Err.wrap e "cannot unmarshal result")
  with_result err (Result.ok r) =
      Result.ok (record { handler_result = r; error = err; notification_message = none })

module _ {S V R : Type 0} (json : ReplyJson S R) where
  -- BackendPubsubJSONMarshaler.MarshalReply
  unfoldable pub marshal_json_reply : ProcessedParams V R → M S (Result ℕ)
  unfolding new_message alloc set_error with_payload
  marshal_json_reply params = do
    uuid ← json.new_uuid
    msg ← alloc (new_message uuid [])
    set_error json params.handle_err msg
    with_payload json msg (json.marshal params.handler_result)

  -- BackendPubsubJSONMarshaler
  unfoldable pub json_reply_marshaler : ReplyMarshaler S V R
  unfolding marshal_json_reply reply_error with_result
  json_reply_marshaler = record {
    marshal_reply = marshal_json_reply;
    unmarshal_reply = λ m. with_result json (reply_error json m) (json.unmarshal m.payload);
  }

-- the function that SendWithReplies gives the command bus, which changes the message
abbrev pub set_operation_id : {S : Type 0} → String → ℕ → M S (Option Err)
set_operation_id id msg = do set_metadata msg operation_id_metadata_key id; pure none

-- the deferred cancellation of an error, and the wrapped errors of SendWithReplies
unfoldable pub cancelled_with : {S : Type 0} → Context → String → Err → M S (Result ℕ)
unfolding cancel
cancelled_with ctx text e = do cancel ctx; pure (Result.fail (Err.wrap e text))

module _ {S V : Type 0} where
  unfoldable pub send_listening : CommandBus S V → Context → V → String → Result ℕ → M S (Result ℕ)
  unfolding cancelled_with send_with_modified_message
  send_listening c ctx cmd id (Result.fail e) = cancelled_with ctx "cannot listen for reply" e
  send_listening c ctx cmd id (Result.ok replies) = do
    err ← send_with_modified_message c ctx cmd (some (set_operation_id id))
    elim err [
      | some e ↦ cancelled_with ctx "cannot send command" e
      | none ↦ pure (Result.ok replies)
    ]

module _ {S V R : Type 0} where
  -- SendWithReplies; its cancel function is that of the context made here
  unfoldable pub send_with_replies :
      M S String → CommandBus S V → Backend S V R → Context → V → M S (Result ℕ)
  unfolding with_cancel send_listening
  send_with_replies new_uuid c backend outer cmd = do
    ctx ← with_cancel outer
    id ← new_uuid
    replies ← backend.listen_for_notifications ctx cmd id
    send_listening c ctx cmd id replies
