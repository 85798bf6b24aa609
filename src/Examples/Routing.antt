-- ===== src/Examples/Routing.antt =====
-- The theorems on the router at concrete handlers.
use watermill.Prelude.{
  ℕ, String, true, Option, none, some, [], ◌∷◌, map, foldl, All, ◌==◌, if◌then◌else◌, ◌≡◌, refl,
  lookup, keep, arith, Bool-cases, inl, inr, ap, sym, ◌∙◌, eq_iff,
}
use mathlib.Core.List.{foldr}
use watermill.Go.{Err, Outcome, Result, Context, Chan}
use watermill.Message.Defs.{context_of}
use watermill.Message.Ack.{Call}
use watermill.Runtime.{with_cancel}
use watermill.PubSub.{
  Publisher, Subscriber, transform_subscriber, message_transform_subscriber_decorator,
}
use watermill.Router.Defs.{Router, Handler, Middleware, add_handler}
use watermill.Router.Handling.{
  handle_message, add_context, add_handler_context, middleware_handler, applies,
}
use watermill.Router.Settlement.{attempt, settle_at, drop_running, handle_message-settles}
use watermill.Router.Middlewares.{middleware_handler_order}
use watermill.Router.Context.{CarriesHandler, erase, add_handler_context-CarriesHandler}
use watermill.Router.Decorating.{decorate_handler_publisher, decorate_handler_subscriber}
use watermill.Router.DecoratorOrder.{wrapping, decorators_order}
use watermill.Router.Registration.{IsValid, Added, new_handler, add_handler_lem}
use watermill.Router.Running.{
  RunState, run_handlers, run_each, run_handler, run_found, start_unless, decorate_subscriber,
  put_handler, subscribe_handler, subscribed, or_next,
}
use watermill.Router.HandlerStart.{StartedIn, IsNamed}
use watermill.Router.Startup.{run_handlers_idempotent}
use watermill.Examples.Data.{Log, world, log, recorder, silent, handler, failing, open≢closed}

-- a failing handler function: the message gets Nack
handle_message-settles_example :
    handle_message handler 0 failing world
    ≡ (Outcome.done tt, drop_running (settle_at Call.nacks 0 world))
unfolding attempt
handle_message-settles_example =
    handle_message-settles handler failing 0 (Outcome.done (some (Err.new "failed"))) world world
      refl (open≢closed, open≢closed) (ground arith)

add_handler_context-CarriesHandler_example :
    let (out, w') = add_handler_context handler (1 ∷ []) world in
    (out ≡ Outcome.done tt)
    × All
        (λ q. CarriesHandler handler (context_of (world.cells q)) (context_of (w'.cells q)))
        (1 ∷ [])
    × ((q : ℕ) → erase (w'.cells q) ≡ erase (world.cells q))
add_handler_context-CarriesHandler_example =
    add_handler_context-CarriesHandler handler (1 ∷ []) world

abbrev logging : String → Middleware Log
logging topic = record {
  handler = λ h msg w. h msg (log topic (msg ∷ []) w);
  handler_name = "";
  is_router_level = true;
}

middleware_handler_order_example :
    middleware_handler "h" (logging "first" ∷ logging "second" ∷ []) failing
    ≡ foldr
        (λ m inner. m.handler inner)
        failing
        (keep (applies "h") (logging "first" ∷ logging "second" ∷ []))
middleware_handler_order_example =
    middleware_handler_order "h" (logging "first" ∷ logging "second" ∷ []) failing

abbrev renamed : String → Option (Publisher Log) → Option (Publisher Log)
renamed name p = some (record recorder { name = name })

abbrev renamed_subscriber : String → Subscriber Log → Subscriber Log
renamed_subscriber name s = record s { name = name }

abbrev decorated : Router Log
decorated = record {
  close_timeout = 1;
  middlewares = [];
  handlers = [];
  handlers_wg = 0;
  publisher_decorators = map wrapping (renamed "a" ∷ renamed "b" ∷ []);
  subscriber_decorators = map wrapping (renamed_subscriber "a" ∷ []);
  is_running = true;
  running = Chan.open_chan;
}

decorators_order_example :
    (decorate_handler_publisher decorated handler world
      ≡ (Outcome.done (Result.ok (some (record recorder { name = "a" }))), world))
    × (decorate_handler_subscriber decorated handler world ≡ (
      Outcome.done (
          Result.ok (
            foldl
              (λ q g. g q)
              (transform_subscriber (add_context handler) silent)
              (renamed_subscriber "a" ∷ []))),
      world,
    ))
decorators_order_example =
    decorators_order decorated handler world (renamed "a" ∷ renamed "b" ∷ [])
      (renamed_subscriber "a" ∷ []) refl refl

decorated-IsValid : IsValid decorated
unfolding lookup
decorated-IsValid = record { unique = tt; counted = refl; named = λ k h e. ground arith }

add_handler_lem_example :
    let (out, r') = add_handler "h" "in" silent "out" (some recorder) failing decorated in
    IsValid r' × Added (new_handler "h" "in" silent "out" (some recorder) failing) out decorated r'
add_handler_lem_example =
    add_handler_lem "h" "in" silent "out" (some recorder) failing decorated decorated-IsValid

abbrev running : RunState Log
running = record {
  router = record decorated {
    handlers = ("h", handler) ∷ [];
    handlers_wg = 1;
    publisher_decorators = [];
    subscriber_decorators = [];
  };
  world = world;
}

abbrev name_of : Option (Handler Log) → String
name_of none = ""
name_of (some h) = h.name

running-IsNamed : IsNamed running.router
unfolding lookup
running-IsNamed k h e = elim (Bool-cases ("h" == k)) [
  | inl same ↦
      ap (λ o. name_of o) (sym e ∙ ap (λ b. if b then some handler else none) same)
      ∙ (eq_iff "h" k).0 same
  | inr other ↦ absurd (ground arith)
]

abbrev after_run : RunState Log
after_run = (run_handlers Context.background ("h" ∷ []) running).1

run_handlers_idempotent_example :
    All (StartedIn after_run) ("h" ∷ [])
    × (run_handlers Context.background ("h" ∷ []) after_run ≡ (Outcome.done none, after_run))
unfolding run_handlers run_each run_handler run_found lookup start_unless decorate_handler_publisher
    decorate_subscriber put_handler decorate_handler_subscriber
    message_transform_subscriber_decorator subscribe_handler with_cancel subscribed or_next
run_handlers_idempotent_example =
    run_handlers_idempotent Context.background Context.background ("h" ∷ []) running after_run
      running-IsNamed refl
