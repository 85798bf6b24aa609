-- ===== src/Router/Running.antt =====
-- message/router.go: the decorators, RunHandlers and the start of Run. A handler is a pointer that
-- the map shares, so what is written to it is written into the map.
use watermill.Prelude.{
  String, Bool, true, false, if◌then◌else◌, Option, none, some, List, [], ◌∷◌, lookup, insert,
}
use watermill.Go.{
  Err, Outcome, Result, Chan, Go, Context, pure, gets, modify, resume, close_chan, ◌>>=◌, ◌>>◌,
}
use watermill.Runtime.{World, M, with_cancel, cancel}
use watermill.PubSub.{Publisher, Stream, Subscriber}
use watermill.Router.Defs.{Router, Handler}
use watermill.Router.Decorating.{decorate_handler_publisher, decorate_handler_subscriber}

pub record RunState (S : Type 0) : Type 0 where
  pub router : Router S
  pub world : World S

abbrev plugin_error : Option Err → Option Err
plugin_error none = none
plugin_error (some e) = some (Err.wrap e "cannot initialize plugin")

module _ {S : Type 0} where
  abbrev pub on_world : {A : Type 0} → M S A → Go (RunState S) A
  on_world m s = let (out, w) = m s.world in (out, record s { world = w })

  -- r.handlers[h.name] = h, where the handler that is there has been written to
  unfoldable pub put_handler : Handler S → Go (RunState S) (Unit {0})
  put_handler h s = (
    Outcome.done tt,
    record s { router = record s.router { handlers = insert h.name h s.router.handlers } },
  )

  -- the end of the loop body of RunHandlers, after the subscription; `started` stands for startedCh
  -- too, and the goroutine that runs the handler is not modelled
  unfoldable pub subscribed : Handler S → Context → Result (Stream S) → Go (RunState S) (Option Err)
  unfolding put_handler
  subscribed h ctx (Result.fail e) = do
    on_world (cancel ctx)
    pure (some (Err.wrap e "cannot subscribe topic"))
  subscribed h ctx (Result.ok messages) = do
    put_handler (record h { messages_ch = some messages; started = true; stop_ctx = some ctx })
    pure none

  unfoldable pub subscribe_handler :
      Context → Handler S → Result (Subscriber S) → Go (RunState S) (Option Err)
  subscribe_handler ctx h (Result.fail e) =
      pure (some (Err.wrap e "could not decorate subscriber of handler"))
  subscribe_handler ctx h (Result.ok sub) = do
    put_handler (record h { subscriber = sub })
    ctx' ← on_world (with_cancel ctx)
    messages ← on_world (sub.subscribe ctx' h.subscribe_topic)
    subscribed (record h { subscriber = sub }) ctx' messages

  unfoldable pub decorate_subscriber :
      Context → Handler S → Result (Option (Publisher S)) → Go (RunState S) (Option Err)
  decorate_subscriber ctx h (Result.fail e) =
      pure (some (Err.wrap e "could not decorate publisher of handler"))
  decorate_subscriber ctx h (Result.ok p) = do
    put_handler (record h { publisher = p })
    r ← gets (λ s. s.router)
    sub ← on_world (decorate_handler_subscriber r (record h { publisher = p }))
    subscribe_handler ctx (record h { publisher = p }) sub

  -- the loop body of RunHandlers on a handler that is in the map, by whether it has started
  unfoldable pub start_unless : Bool → Context → Handler S → Go (RunState S) (Option Err)
  start_unless true ctx h = pure none
  start_unless false ctx h = do
    r ← gets (λ s. s.router)
    p ← on_world (decorate_handler_publisher r h)
    decorate_subscriber ctx h p

  unfoldable pub run_found : Context → Option (Handler S) → Go (RunState S) (Option Err)
  run_found ctx none = pure none
  run_found ctx (some h) = start_unless h.started ctx h

  unfoldable pub run_handler : Context → String → Go (RunState S) (Option Err)
  run_handler ctx name = do h ← gets (λ s. lookup name s.router.handlers); run_found ctx h

  unfoldable pub or_next : Option Err → Go (RunState S) (Option Err) → Go (RunState S) (Option Err)
  or_next (some e) next = pure (some e)
  or_next none next = next

  -- the loop of RunHandlers; Go ranges over the map in an order of its choice, which is `order`
  unfoldable pub run_each : Context → List String → Go (RunState S) (Option Err)
  run_each ctx [] = pure none
  run_each ctx (name ∷ order) = do err ← run_handler ctx name; or_next err (run_each ctx order)

  -- RunHandlers
  unfoldable pub run_handlers : Context → List String → Go (RunState S) (Option Err)
  run_handlers ctx order s =
      if s.router.is_running
      then run_each ctx order s
      else (Outcome.done (some (Err.new "you can't call RunHandlers on non-running router")), s)

  -- the loop of Run over the plugins; one may change the router, but no plugin that it adds is run
  run_plugins : List (Go (RunState S) (Option Err)) → Go (RunState S) (Option Err)
  unfolding or_next
  run_plugins [] = pure none
  run_plugins (plugin ∷ plugins) = do err ← plugin; or_next (plugin_error err) (run_plugins plugins)

  set_running : Go (RunState S) (Unit {0})
  set_running = modify λ s. record s { router = record s.router { is_running = true } }

  -- close(r.running)
  close_running : Go (RunState S) (Unit {0})
  unfolding close_chan
  close_running s =
      resume (close_chan s.router.running)
        (λ ch t. (Outcome.done tt, record t { router = record t.router { running = ch } })) s

  close_if_none : Option Err → Go (RunState S) (Option Err)
  unfolding close_running
  close_if_none (some e) = pure (some e)
  close_if_none none = do close_running; pure none

  -- `defer cancel()`, which takes effect at once if Run returns or panics before it waits
  leave : Context → Outcome (Option Err) → Go (RunState S) (Option Err)
  leave ctx (Outcome.done none) s = (Outcome.done none, s)
  leave ctx out s = let (o, s') = on_world (cancel ctx) s in resume o (λ _ t. (out, t)) s'

  run_loaded :
      List (Go (RunState S) (Option Err)) → List String → Context → Go (RunState S) (Option Err)
  unfolding run_plugins close_if_none leave
  run_loaded plugins order ctx s =
      let (out, s') =
        (do
          err ← run_plugins plugins
          started ← or_next err (run_handlers ctx order)
          close_if_none started)
          s in
      leave ctx out s'

  -- Run, up to where it waits for the router to close: nil then stands for a router that runs
  unfoldable pub run :
      Context → List (Go (RunState S) (Option Err)) → List String → Go (RunState S) (Option Err)
  unfolding set_running run_loaded
  run ctx plugins order s =
      if s.router.is_running
      then (Outcome.done (some (Err.new "router is already running")), s)
      else (do set_running; ctx' ← on_world (with_cancel ctx); run_loaded plugins order ctx') s

-- IsRunning
unfoldable pub is_running_chan : Chan → Bool
is_running_chan Chan.closed_chan = true
is_running_chan _ = false
