-- ===== src/Router/Handling.antt =====
-- message/router.go, the handling of one message: the middlewares around the handler function, the
-- context of the messages, publishing, and the acknowledgement. Logging is left out.
use watermill.Prelude.{
  ℕ, String, Bool, ◌||◌, ◌==◌, if◌then◌else◌, Option, none, some, List, [], ◌∷◌,
}
use mathlib.Core.List.{reverse}
use watermill.Go.{
  Err, Context, CtxKey, CtxValue, ctx_value, text_value, pure, ◌>>=◌, ◌>>◌, defer_call, recover_by,
}
use watermill.Runtime.{
  M, message_context, set_message_context, ack_message, nack_message, done_running, for_each,
}
use watermill.PubSub.{Publisher, HandlerFunc}
use watermill.Router.Defs.{Middleware, Handler, err_output_in_no_publisher_handler}

module _ {S : Type 0} where
  -- is the middleware for this handler?
  unfoldable pub applies : String → Middleware S → Bool
  applies name m = m.is_router_level || (m.handler_name == name)

  -- the loop of `run`, over the middlewares from the last to the first
  unfoldable pub wrap_loop : String → List (Middleware S) → HandlerFunc S → HandlerFunc S
  unfolding applies
  wrap_loop name [] h = h
  wrap_loop name (m ∷ ms) h = wrap_loop name ms (if applies name m then m.handler h else h)

  -- the handler function as `run` wraps it
  unfoldable pub middleware_handler : String → List (Middleware S) → HandlerFunc S → HandlerFunc S
  unfolding wrap_loop
  middleware_handler name middlewares h = wrap_loop name (reverse middlewares) h

-- `if v != "" { ctx = context.WithValue(ctx, key, v) }`
unfoldable pub with_text : CtxKey → String → Context → Context
with_text key v ctx = if v == "" then ctx else Context.with_value key (CtxValue.text v) ctx

module _ {S : Type 0} where
  -- the body of the loop of addHandlerContext
  unfoldable pub handler_context : Handler S → Context → Context
  unfolding with_text
  handler_context h ctx = with_text CtxKey.publish_topic h.publish_topic (
      with_text CtxKey.subscribe_topic h.subscribe_topic (
        with_text CtxKey.subscriber_name h.subscriber_name (
          with_text CtxKey.publisher_name h.publisher_name
            (with_text CtxKey.handler_name h.name ctx))))

  unfoldable pub add_context : Handler S → ℕ → M S (Unit {0})
  unfolding handler_context message_context set_message_context
  add_context h msg = do ctx ← message_context msg; set_message_context (handler_context h ctx) msg

  -- addHandlerContext
  unfoldable pub add_handler_context : Handler S → List ℕ → M S (Unit {0})
  unfolding add_context for_each
  add_handler_context h = for_each (add_context h)

  publish_on : Option (Publisher S) → String → List ℕ → M S (Option Err)
  publish_on none topic messages = pure (some err_output_in_no_publisher_handler)
  publish_on (some p) topic messages = p.publish topic messages

  -- publishProducedMessages
  unfoldable pub publish_produced_messages : Handler S → List ℕ → M S (Option Err)
  unfolding publish_on
  publish_produced_messages h [] = pure none
  publish_produced_messages h (m ∷ ms) = publish_on h.publisher h.publish_topic (m ∷ ms)

  unfoldable pub settle : ℕ → Option Err → M S (Unit {0})
  settle msg none = ack_message msg
  settle msg (some e) = nack_message msg

  unfoldable pub after_handler : Handler S → ℕ → List ℕ × Option Err → M S (Unit {0})
  after_handler h msg (produced, some e) = nack_message msg
  after_handler h msg (produced, none) = do
    add_handler_context h produced
    err ← publish_produced_messages h produced
    settle msg err

  -- handleMessage
  unfoldable pub handle_message : Handler S → ℕ → HandlerFunc S → M S (Unit {0})
  handle_message h msg handler =
      defer_call done_running
        (recover_by (λ _. nack_message msg) (do out ← handler msg; after_handler h msg out))

-- valFromCtx
unfoldable pub val_from_ctx : Context → CtxKey → String
unfolding ctx_value text_value
val_from_ctx ctx key = text_value (ctx_value ctx key)

-- HandlerNameFromCtx and the other functions of message/router_context.go
unfoldable pub handler_name_from_ctx : Context → String
unfolding val_from_ctx
handler_name_from_ctx ctx = val_from_ctx ctx CtxKey.handler_name

unfoldable pub publisher_name_from_ctx : Context → String
unfolding val_from_ctx
publisher_name_from_ctx ctx = val_from_ctx ctx CtxKey.publisher_name

unfoldable pub subscriber_name_from_ctx : Context → String
unfolding val_from_ctx
subscriber_name_from_ctx ctx = val_from_ctx ctx CtxKey.subscriber_name

unfoldable pub subscribe_topic_from_ctx : Context → String
unfolding val_from_ctx
subscribe_topic_from_ctx ctx = val_from_ctx ctx CtxKey.subscribe_topic

unfoldable pub publish_topic_from_ctx : Context → String
unfolding val_from_ctx
publish_topic_from_ctx ctx = val_from_ctx ctx CtxKey.publish_topic
