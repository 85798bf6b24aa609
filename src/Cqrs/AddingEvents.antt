-- ===== src/Cqrs/AddingEvents.antt =====
-- components/cqrs/event_processor.go: how handlers are added to a processor and to the router.
use watermill.Prelude.{
  String, Bool, true, false, if◌then◌else◌, Option, none, some, List, [], ◌∷◌, ◌++◌,
}
use watermill.Go.{Err, Outcome, Result, Go, pure, ◌>>=◌}
use watermill.Runtime.{M}
use watermill.PubSub.{Subscriber}
use watermill.Router.Running.{RunState}
use watermill.Cqrs.Defs.{Marshaler, EventHandler}
use watermill.Cqrs.EventProcessor.{
  EventProcessorConfig, EventProcessor, add_event_handler_to_router,
  new_event_processor_with_config,
}

module _ {S V : Type 0} where
  abbrev on_run : {A : Type 0} → Go (RunState S) A → Go (RunState S × EventProcessor S V) A
  on_run m (s, p) = let (out, s') = m s in (out, (s', p))

  abbrev append_handlers :
      List (EventHandler S V) → Go (RunState S × EventProcessor S V) (Option Err)
  append_handlers hs (s, p) = (Outcome.done none, (s, record p { handlers = p.handlers ++ hs }))

  -- the loop of EventProcessor.AddHandlers
  unfoldable pub add_each_event_handler :
      (V → Bool)
      → EventProcessorConfig S V
      → Marshaler S V
      → List (EventHandler S V)
      → Go (RunState S × EventProcessor S V) (Option Err)
  unfolding add_event_handler_to_router
  add_each_event_handler is_pointer c marshaler [] = pure none
  add_each_event_handler is_pointer c marshaler (h ∷ hs) = do
    err ← on_run (add_event_handler_to_router is_pointer c marshaler h)
    elim err [
      | some e ↦ pure (some e)
      | none ↦ (do _ ← append_handlers (h ∷ []); add_each_event_handler is_pointer c marshaler hs)
    ]

  -- EventProcessor.AddHandlers; AddHandler is a call of it with one handler
  unfoldable pub add_event_handlers :
      (V → Bool)
      → EventProcessorConfig S V
      → Marshaler S V
      → List (EventHandler S V)
      → Go (RunState S × EventProcessor S V) (Option Err)
  unfolding add_each_event_handler
  add_event_handlers is_pointer c marshaler hs =
      if c.disable_router_auto_add_handlers
      then append_handlers hs
      else add_each_event_handler is_pointer c marshaler hs

  -- the loop of AddHandlersToRouter
  unfoldable pub add_all_events_to_router :
      (V → Bool)
      → EventProcessorConfig S V
      → Marshaler S V
      → List (EventHandler S V)
      → Go (RunState S) (Option Err)
  unfolding add_event_handler_to_router
  add_all_events_to_router is_pointer c marshaler [] = pure none
  add_all_events_to_router is_pointer c marshaler (h ∷ hs) = do
    err ← add_event_handler_to_router is_pointer c marshaler h
    elim err [ some e ↦ pure (some e) | none ↦ add_all_events_to_router is_pointer c marshaler hs ]

  -- EventProcessor.AddHandlersToRouter
  unfoldable pub add_event_handlers_to_router :
      (V → Bool) → Marshaler S V → EventProcessor S V → Go (RunState S) (Option Err)
  unfolding add_all_events_to_router
  add_event_handlers_to_router is_pointer marshaler p =
      if p.config.disable_router_auto_add_handlers
      then add_all_events_to_router is_pointer p.config marshaler p.handlers
      else pure (
          some (
            Err.new
              "AddHandlersToRouter should be called only when using deprecated NewEventProcessor"))

  -- the processor of NewEventProcessor: AddHandlers with one handler at a time appends it
  with_event_handlers :
      List (EventHandler S V) → Result (EventProcessor S V) → Result (EventProcessor S V)
  with_event_handlers hs (Result.fail e) = Result.fail e
  with_event_handlers hs (Result.ok p) = Result.ok (record p { handlers = p.handlers ++ hs })

  -- NewEventProcessor
  unfoldable pub new_event_processor :
      List (EventHandler S V)
      → Option (String → String)
      → Option (String → M S (Result (Subscriber S)))
      → Option (Marshaler S V)
      → Result (EventProcessor S V)
  unfolding with_event_handlers new_event_processor_with_config
  new_event_processor [] generate_topic construct marshaler =
      Result.fail (Err.new "missing handlers")
  new_event_processor (h ∷ hs) none construct marshaler = Result.fail (Err.new "nil generateTopic")
  new_event_processor (h ∷ hs) (some generate_topic) none marshaler =
      Result.fail (Err.new "missing subscriberConstructor")
  new_event_processor (h ∷ hs) (some generate_topic) (some construct) none =
      Result.fail (Err.new "missing marshaler")
  new_event_processor (h ∷ hs) (some generate_topic) (some construct) (some marshaler) =
      with_event_handlers (h ∷ hs) (
        new_event_processor_with_config false (record {
          generate_subscribe_topic = some (λ name handler. pure (Result.ok (generate_topic name)));
          subscriber_constructor = some (λ event_name handler_name handler. construct handler_name);
          on_handle = none;
          ack_on_unknown_event = true;
          marshaler = some marshaler;
          disable_router_auto_add_handlers = true;
        }))
