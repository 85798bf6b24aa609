-- ===== src/Cqrs/Settling.antt =====
-- What the router makes of a message that a command handler has got.
use watermill.Prelude.{ℕ, true, false, ◌==◌, Option, none, some, ◌≡◌, refl, ◌∙◌, ◌<◌}
use watermill.Go.{ctx_value, CtxKey-discrete, Err, Outcome, Result, Context, pure, ◌>>=◌, >>=-done}
use watermill.Message.Defs.{context_of, set_context}
use watermill.Message.Settlement.{IsConsistent}
use watermill.Message.Ack.{Call}
use watermill.Runtime.{
  World, M, read, update, on_message, message_context, set_message_context, for_each,
}
use watermill.PubSub.{NoPublishHandlerFunc}
use watermill.Router.Defs.{Handler, handler_func_adapter}
use watermill.Router.Handling.{handle_message, add_handler_context, publish_produced_messages}
use watermill.Router.Settlement.{attempt, verdict, settle_at, drop_running, handle_message-settles}
use watermill.Cqrs.Defs.{
  Marshaler, CommandHandler, decode_and_handle, ctx_with_original_message,
  original_message_from_ctx,
}
use watermill.Cqrs.CommandProcessor.{CommandProcessorConfig, call_handler, handle_command, acked}

module _ {S : Type 0} where
  -- without produced messages, an attempt is a call of the function
  attempt_after_call :
      (h : Handler S) (f : NoPublishHandlerFunc S) (msg : ℕ) (w w' : World S) (err : Option Err)
      → f msg w ≡ (Outcome.done err, w')
      → attempt h (handler_func_adapter f) msg w ≡ (Outcome.done err, w')
  unfolding attempt handler_func_adapter add_handler_context publish_produced_messages for_each
  attempt_after_call h f msg w w' none e = rw e refl
  attempt_after_call h f msg w w' (some x) e = rw e refl

  -- the router's settlement, after a handler function that produces nothing
  pub settles_consumed :
      (h : Handler S) (f : NoPublishHandlerFunc S) (msg : ℕ) (w w' : World S) (err : Option Err)
      → f msg w ≡ (Outcome.done err, w')
      → IsConsistent (w'.cells msg)
      → 0 < w'.running_handlers
      → handle_message h msg (handler_func_adapter f) w
        ≡ (Outcome.done tt, drop_running (settle_at (verdict (Outcome.done err)) msg w'))
  settles_consumed h f msg w w' err e v r =
      handle_message-settles h (handler_func_adapter f) msg (Outcome.done err) w w'
        (attempt_after_call h f msg w w' err e) v r

  -- the world in which the message has the context with the original message
  abbrev pub with_original : ℕ → World S → World S
  with_original msg w = record w {
    cells = update w.cells msg (record (w.cells msg) {
      ctx = some (ctx_with_original_message (context_of (w.cells msg)) msg);
    });
  }

  abbrev pub original_ctx : ℕ → World S → Context
  original_ctx msg w = ctx_with_original_message (context_of (w.cells msg)) msg

module _ {S V : Type 0} (marshaler : Marshaler S V) (msg : ℕ) where
  -- the handler gets what Unmarshal made, and the context with the message
  pub decode_and_handle_lem :
      (v cmd : V) (k : Context → V → M S (Option Err)) (w w' : World S)
      → marshaler.unmarshal msg v (with_original msg w) ≡ (Outcome.done (Result.ok cmd), w')
      → decode_and_handle marshaler msg v k w ≡ k (original_ctx msg w) cmd w'
  unfolding decode_and_handle message_context set_message_context on_message set_context read
  decode_and_handle_lem v cmd k w w' f =
      >>=-done (marshaler.unmarshal msg v)
        (λ decoded. elim decoded [
          | Result.fail e ↦ pure (some e)
          | Result.ok value ↦ k (original_ctx msg w) value
        ])
        f

module _ {S V : Type 0} (c : CommandProcessorConfig S V) (marshaler : Marshaler S V)
    (handler : CommandHandler S V) (msg : ℕ) where
  -- a message of the handler's command that can be read
  pub handle_command-decoded :
      (w w' : World S) (cmd : V)
      → (marshaler.name_from_message (w.cells msg) == marshaler.name handler.new_command) ≡ true
      → marshaler.unmarshal msg handler.new_command (with_original msg w)
        ≡ (Outcome.done (Result.ok cmd), w')
      → handle_command c marshaler handler msg w
        ≡ (do
          err ←
              call_handler c handler
                (marshaler.name_from_message (w.cells msg))
                msg
                (original_ctx msg w)
                cmd
          pure (acked c.ack_command_handling_errors err))
            w'
  unfolding handle_command read
  handle_command-decoded w w' cmd e f = rw e (
      decode_and_handle_lem marshaler msg handler.new_command cmd
        (λ ctx v. (do
          err ← call_handler c handler (marshaler.name_from_message (w.cells msg)) msg ctx v
          pure (acked c.ack_command_handling_errors err)))
        w w' f)

  -- A message of the handler's command that Unmarshal reads, on a processor without OnHandle: the
  -- handler gets the command, and a context from which the message can be read. When it returns, with
  -- an error or without, and leaves the message's channels in agreement with its settlement, the
  -- router does not panic and has settled the message, unless it was settled already: with Nack if the
  -- handler returned an error and AckCommandHandlingErrors is not set, and with Ack otherwise.
  pub command_settles_message :
      (h : Handler S) (w w1 w2 : World S) (cmd : V) (err : Option Err)
      → c.on_handle ≡ none
      → (marshaler.name_from_message (w.cells msg) == marshaler.name handler.new_command) ≡ true
      → marshaler.unmarshal msg handler.new_command (with_original msg w)
        ≡ (Outcome.done (Result.ok cmd), w1)
      → handler.handle (original_ctx msg w) cmd w1 ≡ (Outcome.done err, w2)
      → IsConsistent (w2.cells msg)
      → 0 < w2.running_handlers
      → (original_message_from_ctx (original_ctx msg w) ≡ some msg)
        × (handle_message h msg (handler_func_adapter (handle_command c marshaler handler)) w ≡ (
          Outcome.done tt,
          drop_running
              (settle_at (verdict (Outcome.done (acked c.ack_command_handling_errors err))) msg w2),
        ))
  unfolding call_handler original_message_from_ctx ctx_value CtxKey-discrete
      ctx_with_original_message
  command_settles_message h w w1 w2 cmd err plain e f g v r = (
    refl,
    settles_consumed h (handle_command c marshaler handler) msg w w2
        (acked c.ack_command_handling_errors err)
        (handle_command-decoded w w1 cmd e f
          ∙ >>=-done
              (call_handler c handler (marshaler.name_from_message (w.cells msg)) msg
                (original_ctx msg w) cmd)
              (λ err. pure (acked c.ack_command_handling_errors err)) (rw plain g))
        v r,
  )

  -- A message of another command is left alone by the handler, and the router settles it with Ack.
  pub other_command_is_acked :
      (h : Handler S) (w : World S)
      → (marshaler.name_from_message (w.cells msg) == marshaler.name handler.new_command) ≡ false
      → IsConsistent (w.cells msg)
      → 0 < w.running_handlers
      → handle_message h msg (handler_func_adapter (handle_command c marshaler handler)) w
        ≡ (Outcome.done tt, drop_running (settle_at Call.acks msg w))
  unfolding handle_command read
  other_command_is_acked h w e v r =
      settles_consumed h (handle_command c marshaler handler) msg w w none (rw e refl) v r
