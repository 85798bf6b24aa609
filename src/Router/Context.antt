-- ===== src/Router/Context.antt =====
-- What addHandlerContext puts into the context of the produced messages, for the readers of
-- message/router_context.go.
use watermill.Prelude.{ℕ, none, String, ◌==◌, if◌then◌else◌, List, [], ◌∷◌, All, ◌≡◌, refl, arith}
use mathlib.Core.Logic.{ite}
use watermill.Go.{Outcome, Context, CtxKey, ctx_value, text_value, CtxKey-discrete}
use watermill.Message.Defs.{Message, context_of, set_context}
use watermill.Runtime.{World, on_message, read, message_context, set_message_context}
use watermill.Runtime.Laws.{
  map_cell, map_cells, map_cells-keeps, map_cells-related, for_each-map_cells,
}
use watermill.Router.Defs.{Handler}
use watermill.Router.Handling.{
  with_text, handler_context, add_context, add_handler_context, val_from_ctx, handler_name_from_ctx,
  publisher_name_from_ctx, subscriber_name_from_ctx, subscribe_topic_from_ctx,
  publish_topic_from_ctx,
}

val_from_ctx-with_text :
    (k j : CtxKey) (v : String) (ctx : Context)
    → val_from_ctx (with_text k v ctx) j
      ≡ (if v == "" then val_from_ctx ctx j else ite (CtxKey-discrete k j) v (val_from_ctx ctx j))
unfolding val_from_ctx with_text ctx_value text_value
val_from_ctx-with_text k j v ctx = ground arith

abbrev pub or_before : String → String → String
or_before v before = if v == "" then before else v

-- The later context reads as the handler's name, topics and the names of its publisher and
-- subscriber, each of which the earlier context still gives if the handler's own is empty.
pub record CarriesHandler {S : Type 0} (h : Handler S) (before later : Context) : Type 0 where
  pub handler_name : handler_name_from_ctx later ≡ or_before h.name (handler_name_from_ctx before)
  pub publisher_name :
      publisher_name_from_ctx later ≡ or_before h.publisher_name (publisher_name_from_ctx before)
  pub subscriber_name :
      subscriber_name_from_ctx later ≡ or_before h.subscriber_name (subscriber_name_from_ctx before)
  pub subscribe_topic :
      subscribe_topic_from_ctx later ≡ or_before h.subscribe_topic (subscribe_topic_from_ctx before)
  pub publish_topic :
      publish_topic_from_ctx later ≡ or_before h.publish_topic (publish_topic_from_ctx before)

-- a message without its context
abbrev pub erase : Message → Message
erase m = record m { ctx = none }

module _ {S : Type 0} (h : Handler S) where
  handler_context-CarriesHandler : (ctx : Context) → CarriesHandler h ctx (handler_context h ctx)
  unfolding handler_context handler_name_from_ctx publisher_name_from_ctx subscriber_name_from_ctx
      subscribe_topic_from_ctx publish_topic_from_ctx CtxKey-discrete
  handler_context-CarriesHandler ctx = record {
    handler_name = simp val_from_ctx-with_text (ground arith);
    publisher_name = simp val_from_ctx-with_text (ground arith);
    subscriber_name = simp val_from_ctx-with_text (ground arith);
    subscribe_topic = simp val_from_ctx-with_text (ground arith);
    publish_topic = simp val_from_ctx-with_text (ground arith);
  }

  CarriesHandler-trans :
      {a b c : Context} → CarriesHandler h a b → CarriesHandler h b c → CarriesHandler h a c
  CarriesHandler-trans p q = record {
    handler_name = ground (arith, p.handler_name, q.handler_name);
    publisher_name = ground (arith, p.publisher_name, q.publisher_name);
    subscriber_name = ground (arith, p.subscriber_name, q.subscriber_name);
    subscribe_topic = ground (arith, p.subscribe_topic, q.subscribe_topic);
    publish_topic = ground (arith, p.publish_topic, q.publish_topic);
  }

  -- one message gets its context
  contextual : Message → Message
  contextual m = set_context (handler_context h (context_of m)) m

  add_context_lem :
      (p : ℕ) (w : World S) → add_context h p w ≡ (Outcome.done tt, map_cell contextual p w)
  unfolding add_context message_context set_message_context on_message read contextual
  add_context_lem p w = refl

  always : List ℕ → World S → (ps : List ℕ) → All (λ _. Unit {0}) ps
  always ps w [] = tt
  always ps w (q ∷ qs) = (tt, always ps w qs)

  add_handler_context_lem :
      (ps : List ℕ) (w : World S)
      → add_handler_context h ps w ≡ (Outcome.done tt, map_cells contextual ps w)
  unfolding add_handler_context
  add_handler_context_lem ps w =
      for_each-map_cells contextual (λ _. Unit {0}) (λ _ _. tt) (add_context h)
        (λ p v _. add_context_lem p v) ps w (always ps w ps)

  -- addHandlerContext does not panic. Afterwards the context of every produced message reads as the
  -- handler's name, topics and publisher and subscriber names, or as before where the handler's own
  -- is empty; and nothing but contexts has changed in any message.
  pub add_handler_context-CarriesHandler :
      (ps : List ℕ) (w : World S)
      → let (out, w') = add_handler_context h ps w in
        (out ≡ Outcome.done tt)
        × All (λ q. CarriesHandler h (context_of (w.cells q)) (context_of (w'.cells q))) ps
        × ((q : ℕ) → erase (w'.cells q) ≡ erase (w.cells q))
  add_handler_context-CarriesHandler ps w = rw add_handler_context_lem (
    refl,
    map_cells-related contextual (λ a b. CarriesHandler h (context_of a) (context_of b))
        (λ m.
          unfold contextual set_context context_of in handler_context-CarriesHandler (context_of m))
        (λ a b c. CarriesHandler-trans) ps w,
    λ q. map_cells-keeps contextual erase (λ m. unfold contextual set_context in refl) q ps w,
  )
