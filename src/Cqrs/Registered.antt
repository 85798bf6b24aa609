-- ===== src/Cqrs/Registered.antt =====
-- What the router has when AddHandlers of a command processor has returned nil.
use watermill.Prelude.{
  ℕ, suc, ◌+◌, String, Bool, false, eq_iff, Option, none, some, List, [], ◌∷◌, ◌++◌, length, All,
  append_assoc, append-nil, lookup, lookup-insert, ◌≡◌, refl, ap, sym, subst, ◌∙◌, arith,
}
use watermill.Go.{Err, Outcome, Result, pure, >>=_parts}
use watermill.PubSub.{Subscriber, NoPublishHandlerFunc}
use watermill.Router.Defs.{
  Router, Handler, register, add_handler, add_consumer_handler, handler_func_adapter,
}
use watermill.Router.Running.{RunState, on_world}
use watermill.Cqrs.Defs.{Marshaler, CommandHandler, needs, validate_pointer}
use watermill.Cqrs.CommandProcessor.{
  CommandProcessorConfig, CommandProcessor, on_router, handle_command, router_handler_func,
  add_with_subscriber, add_with_func, func_unless, add_with_topic, add_handler_to_router,
}
use watermill.Cqrs.AddingCommands.{
  add_each, after_added, add_handlers, add_unless_duplicate, first_duplicate, on_run,
}

-- The router has a handler of the name that runs the function.
abbrev pub Runs : {S : Type 0} → Router S → String → NoPublishHandlerFunc S → Type 0
Runs {S} r name f =
    (x : Handler S) × (lookup name r.handlers ≡ some x) × (x.handler_func ≡ handler_func_adapter f)

-- The router has got the handlers named, and kept those that it had.
pub record Grown {S : Type 0} (added : ℕ) (r r' : Router S) : Type 0 where
  pub wg : r'.handlers_wg ≡ r.handlers_wg + added
  pub keeps :
      (name : String) (x : Handler S)
      → lookup name r.handlers ≡ some x
      → lookup name r'.handlers ≡ some x

module _ {S : Type 0} (name topic : String) (subscriber : Subscriber S)
    (f : NoPublishHandlerFunc S) where
  registered :
      (h : Handler S) (found : Option (Handler S)) (r r' : Router S)
      → h.handler_func ≡ handler_func_adapter f
      → h.name ≡ name
      → lookup name r.handlers ≡ found
      → register h found r ≡ (Outcome.done tt, r')
      → Grown 1 r r' × Runs r' name f
  unfolding register
  registered h (some old) r r' g n e d = cc
  registered h none r r' g n e d = (
    record {
      wg = ground arith;
      keeps = λ k x p. ground (arith, lookup-insert h.name k h r.handlers, eq_iff h.name k);
    },
    (h, ground (arith, lookup-insert h.name name h r.handlers, eq_iff h.name name), g),
  )

  add_consumer_handler-Grown :
      (r r' : Router S)
      → add_consumer_handler name topic subscriber f r ≡ (Outcome.done tt, r')
      → Grown 1 r r' × Runs r' name f
  unfolding add_consumer_handler add_handler
  add_consumer_handler-Grown r r' d = registered _ (lookup name r.handlers) r r' refl refl refl d

Grown-suc : {S : Type 0} (n : ℕ) (r s t : Router S) → Grown 1 r s → Grown n s t → Grown (suc n) r t
Grown-suc n r s t g h = record {
  wg = omega (arith, g.wg, h.wg);
  keeps = λ k x e. h.keeps k x (g.keeps k x e);
}

module _ {S V : Type 0} (is_pointer : V → Bool) (c : CommandProcessorConfig S V)
    (m : Marshaler S V) where
  -- What adding one command handler has done, if it has returned nil.
  abbrev pub GrownBy : CommandHandler S V → RunState S → RunState S → Type 0
  GrownBy h s s' = Grown 1 s.router s'.router × Runs s'.router h.handler_name (handle_command c m h)

  subscriber_added :
      (h : CommandHandler S V) (topic : String) (out : Result (Subscriber S)) (s s' : RunState S)
      → add_with_subscriber h topic (handle_command c m h) out s ≡ (Outcome.done none, s')
      → GrownBy h s s'
  unfolding add_with_subscriber
  subscriber_added h topic (Result.fail e) s s' d = cc
  subscriber_added h topic (Result.ok subscriber) s s' d =
      let add = add_consumer_handler h.handler_name topic subscriber (handle_command c m h) in
      let (u, e, f) = >>=_parts (on_router add) (λ _. pure none) s s' none d in
      subst (λ t. GrownBy h s t.1) f
        (add_consumer_handler-Grown h.handler_name topic subscriber (handle_command c m h) s.router
          (add s.router).1 (ap (λ o. (o, (add s.router).1)) e))

  func_added :
      (h : CommandHandler S V) (topic : String) (invalid : Option Err) (s s' : RunState S)
      → add_with_func c m h topic (func_unless invalid (handle_command c m h)) s
        ≡ (Outcome.done none, s')
      → GrownBy h s s'
  unfolding add_with_func
  func_added h topic (some e) s s' d = cc
  func_added h topic none s s' d =
      let made = on_world (
        needs c.subscriber_constructor
          λ construct. construct (m.name h.new_command) h.handler_name h) in
      let (out, e, f) =
        >>=_parts made (add_with_subscriber h topic (handle_command c m h)) s s' none d in
      subscriber_added h topic out (made s).1 s' f

  topic_added :
      (h : CommandHandler S V) (topic : Result String) (s s' : RunState S)
      → add_with_topic is_pointer c m h topic s ≡ (Outcome.done none, s')
      → GrownBy h s s'
  unfolding add_with_topic router_handler_func
  topic_added h (Result.fail e) s s' d = cc
  topic_added h (Result.ok topic) s s' d =
      func_added h topic (validate_pointer is_pointer h.new_command) s s' d

  router_added :
      (h : CommandHandler S V) (s s' : RunState S)
      → add_handler_to_router is_pointer c m h s ≡ (Outcome.done none, s')
      → GrownBy h s s'
  unfolding add_handler_to_router
  router_added h s s' d =
      let generated = on_world (needs c.generate_subscribe_topic λ g. g (m.name h.new_command) h) in
      let (topic, e, f) = >>=_parts generated (add_with_topic is_pointer c m h) s s' none d in
      topic_added h topic (generated s).1 s' f

  -- What adding a list of handlers has done.
  pub record AllAdded (hs : List (CommandHandler S V)) (s s' : RunState S)
      (p p' : CommandProcessor S V) : Type 0 where
    appended : p'.handlers ≡ p.handlers ++ hs
    grown : Grown (length hs) s.router s'.router
    runs : All (λ h. Runs s'.router h.handler_name (handle_command c m h)) hs

  -- the rest of the loop, after the first of the handlers
  rest_added :
      (h : CommandHandler S V) (hs : List (CommandHandler S V))
      → ((s s' : RunState S) (p p' : CommandProcessor S V)
          → add_each is_pointer c m hs (s, p) ≡ (Outcome.done none, (s', p'))
          → AllAdded hs s s' p p')
      → (err : Option Err) (s s1 s' : RunState S) (p p' : CommandProcessor S V)
      → add_handler_to_router is_pointer c m h s ≡ (Outcome.done err, s1)
      → after_added h (add_each is_pointer c m hs) err (s1, p) ≡ (Outcome.done none, (s', p'))
      → AllAdded (h ∷ hs) s s' p p'
  unfolding after_added
  rest_added h hs ih (some e) s s1 s' p p' d f = cc
  rest_added h hs ih none s s1 s' p p' d f =
      let (grown, (x, at, runs)) = router_added h s s1 d in
      let more = ih s1 s' (record p { handlers = p.handlers ++ (h ∷ []) }) p' f in
      record {
        appended = more.appended ∙ append_assoc p.handlers (h ∷ []) hs;
        grown = Grown-suc (length hs) s.router s1.router s'.router grown more.grown;
        runs = ((x, more.grown.keeps h.handler_name x at, runs), more.runs);
      }

  each_added :
      (hs : List (CommandHandler S V)) (s s' : RunState S) (p p' : CommandProcessor S V)
      → add_each is_pointer c m hs (s, p) ≡ (Outcome.done none, (s', p'))
      → AllAdded hs s s' p p'
  unfolding add_each
  each_added [] s s' p p' d =
      subst (λ t. AllAdded [] s t.1.0 p t.1.1) d
        (record {
          appended = sym (append-nil p.handlers);
          grown = record { wg = omega arith; keeps = λ k x e. e };
          runs = tt;
        })
  each_added (h ∷ hs) s s' p p' d =
      let add = on_run (add_handler_to_router is_pointer c m h) in
      let (err, e, f) =
        >>=_parts add (after_added h (add_each is_pointer c m hs)) (s, p) (s', p') none d in
      rest_added h hs (each_added hs) err s (add_handler_to_router is_pointer c m h s).1 s' p p'
        (ap (λ o. (o, (add_handler_to_router is_pointer c m h s).1)) e) f

  -- When AddHandlers returns nil on a processor that adds to its router, the router has one handler more
  -- for each of them, it runs under the name of each the function that handles its commands, it still
  -- has the handlers that it had, and the processor's list of handlers has them at its end.
  pub add_handlers_registers :
      (hs : List (CommandHandler S V)) (s s' : RunState S) (p p' : CommandProcessor S V)
      → c.disable_router_auto_add_handlers ≡ false
      → add_handlers is_pointer c m hs (s, p) ≡ (Outcome.done none, (s', p'))
      → AllAdded hs s s' p p'
  unfolding add_handlers add_unless_duplicate
  add_handlers_registers hs s s' p p' enabled d =
      each_added hs s s' p p' (not_duplicate (first_duplicate m [] hs) d)
    where
      not_duplicate :
          (found : Option String)
          → add_unless_duplicate is_pointer c m hs found (s, p) ≡ (Outcome.done none, (s', p'))
          → add_each is_pointer c m hs (s, p) ≡ (Outcome.done none, (s', p'))
      not_duplicate (some name) f = cc
      not_duplicate none f = ground arith
