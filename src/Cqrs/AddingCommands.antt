-- ===== src/Cqrs/AddingCommands.antt =====
-- components/cqrs/command_processor.go: how handlers are added to a processor and to the router.
use watermill.Prelude.{
  String, Bool, true, false, if◌then◌else◌, Option, none, some, List, [], ◌∷◌, ◌++◌,
}
use watermill.Go.{Err, Outcome, Result, Go, pure, resume, ◌>>=◌}
use watermill.Runtime.{M}
use watermill.PubSub.{Subscriber}
use watermill.Router.Running.{RunState}
use watermill.Cqrs.Defs.{Marshaler, CommandHandler}
use watermill.Cqrs.CommandProcessor.{
  CommandProcessorConfig, CommandProcessor, duplicate_command_handler, has_key,
  add_handler_to_router, new_command_processor_with_config,
}

module _ {S V : Type 0} where
  -- the first loop of AddHandlers: the name of a command that two of the handlers are for
  unfoldable pub first_duplicate :
      Marshaler S V → List String → List (CommandHandler S V) → Option String
  unfolding has_key
  first_duplicate marshaler handled [] = none
  first_duplicate marshaler handled (h ∷ hs) =
      let name = marshaler.name h.new_command in
      let rest = first_duplicate marshaler (name ∷ handled) hs in
      if has_key name handled then some name else rest

  -- CommandProcessor.AddHandlers and its callers change the processor and the router
  abbrev pub on_run : {A : Type 0} → Go (RunState S) A → Go (RunState S × CommandProcessor S V) A
  on_run m (s, p) = let (out, s') = m s in (out, (s', p))

  abbrev pub append_handlers :
      List (CommandHandler S V) → Go (RunState S × CommandProcessor S V) (Option Err)
  append_handlers hs (s, p) = (Outcome.done none, (s, record p { handlers = p.handlers ++ hs }))

  unfoldable pub after_added :
      CommandHandler S V
      → Go (RunState S × CommandProcessor S V) (Option Err)
      → Option Err
      → Go (RunState S × CommandProcessor S V) (Option Err)
  after_added h rest (some e) = pure (some e)
  after_added h rest none = do _ ← append_handlers (h ∷ []); rest

  -- the second loop of AddHandlers
  unfoldable pub add_each :
      (V → Bool)
      → CommandProcessorConfig S V
      → Marshaler S V
      → List (CommandHandler S V)
      → Go (RunState S × CommandProcessor S V) (Option Err)
  unfolding add_handler_to_router after_added
  add_each is_pointer c marshaler [] = pure none
  add_each is_pointer c marshaler (h ∷ hs) = do
    err ← on_run (add_handler_to_router is_pointer c marshaler h)
    after_added h (add_each is_pointer c marshaler hs) err

  -- AddHandlers, by what its first loop finds
  unfoldable pub add_unless_duplicate :
      (V → Bool)
      → CommandProcessorConfig S V
      → Marshaler S V
      → List (CommandHandler S V)
      → Option String
      → Go (RunState S × CommandProcessor S V) (Option Err)
  unfolding add_each
  add_unless_duplicate is_pointer c marshaler hs (some name) =
      pure (some (duplicate_command_handler name))
  add_unless_duplicate is_pointer c marshaler hs none =
      if c.disable_router_auto_add_handlers
      then append_handlers hs
      else add_each is_pointer c marshaler hs

  -- CommandProcessor.AddHandlers, with the configuration and its marshaler
  unfoldable pub add_handlers :
      (V → Bool)
      → CommandProcessorConfig S V
      → Marshaler S V
      → List (CommandHandler S V)
      → Go (RunState S × CommandProcessor S V) (Option Err)
  unfolding add_unless_duplicate first_duplicate
  add_handlers is_pointer c marshaler hs =
      add_unless_duplicate is_pointer c marshaler hs (first_duplicate marshaler [] hs)

  -- CommandProcessor.AddHandler, which does not look for duplicates
  unfoldable pub add_command_handler :
      (V → Bool)
      → CommandProcessorConfig S V
      → Marshaler S V
      → CommandHandler S V
      → Go (RunState S × CommandProcessor S V) (Option Err)
  unfolding add_each
  add_command_handler is_pointer c marshaler h =
      if c.disable_router_auto_add_handlers
      then append_handlers (h ∷ [])
      else add_each is_pointer c marshaler (h ∷ [])

  -- the loop of AddHandlersToRouter
  unfoldable pub add_all_to_router :
      (V → Bool)
      → CommandProcessorConfig S V
      → Marshaler S V
      → List (CommandHandler S V)
      → Go (RunState S) (Option Err)
  unfolding add_handler_to_router
  add_all_to_router is_pointer c marshaler [] = pure none
  add_all_to_router is_pointer c marshaler (h ∷ hs) = do
    err ← add_handler_to_router is_pointer c marshaler h
    elim err [ some e ↦ pure (some e) | none ↦ add_all_to_router is_pointer c marshaler hs ]

  -- CommandProcessor.AddHandlersToRouter
  unfoldable pub add_handlers_to_router :
      (V → Bool) → Marshaler S V → CommandProcessor S V → Go (RunState S) (Option Err)
  unfolding add_all_to_router
  add_handlers_to_router is_pointer marshaler p =
      if p.config.disable_router_auto_add_handlers
      then add_all_to_router is_pointer p.config marshaler p.handlers
      else pure (
          some (
            Err.new
              "AddHandlersToRouter should be called only when using deprecated NewCommandProcessor"))

  -- the loop of NewCommandProcessor, which calls AddHandlers with one handler at a time
  unfoldable pub add_one_by_one :
      (V → Bool)
      → CommandProcessorConfig S V
      → Marshaler S V
      → List (CommandHandler S V)
      → Go (RunState S × CommandProcessor S V) (Option Err)
  unfolding add_handlers
  add_one_by_one is_pointer c marshaler [] = pure none
  add_one_by_one is_pointer c marshaler (h ∷ hs) = do
    err ← add_handlers is_pointer c marshaler (h ∷ [])
    elim err [ some e ↦ pure (some e) | none ↦ add_one_by_one is_pointer c marshaler hs ]

  -- the configuration that NewCommandProcessor makes
  abbrev pub deprecated_config :
      (String → String)
      → (String → M S (Result (Subscriber S)))
      → Option (Marshaler S V)
      → CommandProcessorConfig S V
  deprecated_config generate_topic subscriber_constructor marshaler = record {
    generate_subscribe_topic = some (λ name handler. pure (Result.ok (generate_topic name)));
    subscriber_constructor =
        some (λ command_name handler_name handler. subscriber_constructor handler_name);
    on_handle = none;
    marshaler = marshaler;
    ack_command_handling_errors = false;
    disable_router_auto_add_handlers = true;
  }

  -- what NewCommandProcessor returns after its loop
  abbrev pub result_of :
      Outcome (Option Err)
      → RunState S × CommandProcessor S V
      → Outcome (Result (CommandProcessor S V)) × RunState S
  result_of out (s, p) =
      resume out (λ err. elim err [ some e ↦ pure (Result.fail e) | none ↦ pure (Result.ok p) ]) s

  unfoldable pub with_handlers :
      (V → Bool)
      → List (CommandHandler S V)
      → Option (Marshaler S V)
      → Result (CommandProcessor S V)
      → Go (RunState S) (Result (CommandProcessor S V))
  unfolding add_one_by_one
  with_handlers is_pointer hs (some marshaler) (Result.ok p) s =
      let t = add_one_by_one is_pointer p.config marshaler hs (s, p) in result_of t.0 t.1
  with_handlers is_pointer hs none made s = (Outcome.done made, s)
  with_handlers is_pointer hs (some marshaler) (Result.fail e) s = (Outcome.done (Result.fail e), s)

  -- NewCommandProcessor
  unfoldable pub new_command_processor :
      (V → Bool)
      → List (CommandHandler S V)
      → Option (String → String)
      → Option (String → M S (Result (Subscriber S)))
      → Option (Marshaler S V)
      → Go (RunState S) (Result (CommandProcessor S V))
  unfolding with_handlers new_command_processor_with_config
  new_command_processor is_pointer [] generate_topic subscriber_constructor marshaler =
      pure (Result.fail (Err.new "missing handlers"))
  new_command_processor is_pointer (h ∷ hs) none subscriber_constructor marshaler =
      pure (Result.fail (Err.new "missing generateTopic"))
  new_command_processor is_pointer (h ∷ hs) (some generate_topic) none marshaler =
      pure (Result.fail (Err.new "missing subscriberConstructor"))
  new_command_processor is_pointer (h ∷ hs) (some generate_topic) (some construct) marshaler =
      with_handlers is_pointer (h ∷ hs) marshaler (
        new_command_processor_with_config false
          (deprecated_config generate_topic construct marshaler))
