-- ===== src/Cqrs/EventGroups.antt =====
-- components/cqrs/event_processor_group.go. The loggers are left out, and setDefaults with them.
use watermill.Prelude.{
  ℕ, String, Bool, true, false, ◌==◌, if◌then◌else◌, Option, none, some, List, [], ◌∷◌, Map, lookup,
  insert,
}
use watermill.Go.{Err, Outcome, Result, Go, Context, pure, resume, ◌>>=◌, ◌>>◌}
use watermill.Runtime.{M, read}
use watermill.PubSub.{Subscriber, NoPublishHandlerFunc}
use watermill.Router.Defs.{add_consumer_handler}
use watermill.Router.Running.{RunState, on_world}
use watermill.Cqrs.Defs.{Marshaler, GroupEventHandler, needs, validate_pointer, decode_and_handle}
use watermill.Cqrs.Buses.{missing}
use watermill.Cqrs.CommandProcessor.{on_router}
use watermill.Cqrs.EventProcessor.{unless_acked}

-- the parameters of OnHandle
pub record OnGroupEventParams (S V : Type 0) : Type 0 where
  pub group_name : String
  pub handler : GroupEventHandler S V
  pub event : V
  pub event_name : String
  pub message : ℕ

pub record EventGroupProcessorConfig (S V : Type 0) : Type 0 where
  pub generate_subscribe_topic :
      Option (String → List (GroupEventHandler S V) → M S (Result String))
  pub subscriber_constructor :
      Option (String → List (GroupEventHandler S V) → M S (Result (Subscriber S)))
  pub on_handle : Option (OnGroupEventParams S V → M S (Option Err))
  pub ack_on_unknown_event : Bool
  pub marshaler : Option (Marshaler S V)

pub record EventGroupProcessor (S V : Type 0) : Type 0 where
  pub group_event_handlers : Map (List (GroupEventHandler S V))
  pub config : EventGroupProcessorConfig S V

abbrev pub no_handler_found : Err
no_handler_found = Err.new "no handler found for event"

add_with_subscriber :
    {S : Type 0}
    → String
    → String
    → NoPublishHandlerFunc S
    → Result (Subscriber S)
    → Go (RunState S) (Option Err)
add_with_subscriber group topic f (Result.fail e) =
    pure (some (Err.wrap e "cannot create subscriber for event processor"))
add_with_subscriber group topic f (Result.ok subscriber) = do
  on_router (add_consumer_handler group topic subscriber f)
  pure none

module _ {S V : Type 0} where
  -- EventGroupProcessorConfig.Validate
  unfoldable pub validate_group_processor : EventGroupProcessorConfig S V → Option Err
  validate_group_processor c = missing c.subscriber_constructor "missing SubscriberConstructor" (
      missing c.generate_subscribe_topic "missing GenerateHandlerGroupTopic"
        (missing c.marshaler "missing Marshaler" none))

  -- NewEventGroupProcessorWithConfig
  unfoldable pub new_event_group_processor_with_config :
      Bool → EventGroupProcessorConfig S V → Result (EventGroupProcessor S V)
  unfolding validate_group_processor
  new_event_group_processor_with_config has_router c = elim (validate_group_processor c) [
    | some e ↦ Result.fail (Err.wrap e "invalid config EventProcessor")
    | none ↦
        if has_router
        then Result.ok (record { group_event_handlers = []; config = c })
        else Result.fail (Err.new "missing router")
  ]

  -- the call of the handler, or of OnHandle in its place
  unfoldable pub call_group_handler :
      EventGroupProcessorConfig S V
      → String
      → GroupEventHandler S V
      → String
      → ℕ
      → Context
      → V
      → M S (Option Err)
  call_group_handler c group handler name msg ctx event = elim c.on_handle [
    | none ↦ handler.handle ctx event
    | some f ↦ f (record {
      group_name = group;
      handler = handler;
      event = event;
      event_name = name;
      message = msg;
    })
  ]

  -- the end of the function that routerHandlerGroupFunc returns
  unfoldable pub after_group : EventGroupProcessorConfig S V → Bool → M S (Option Err)
  after_group c true = pure none
  after_group c false = pure (unless_acked c.ack_on_unknown_event no_handler_found)

  -- its loop, with handledAnyEvent
  unfoldable pub handle_by_each :
      EventGroupProcessorConfig S V
      → Marshaler S V
      → String
      → String
      → ℕ
      → Bool
      → List (GroupEventHandler S V)
      → M S (Option Err)
  unfolding decode_and_handle call_group_handler after_group
  handle_by_each c marshaler group name msg handled_any_event [] = after_group c handled_any_event
  handle_by_each c marshaler group name msg handled_any_event (h ∷ hs) =
      let skip = handle_by_each c marshaler group name msg handled_any_event hs in
      let rest = handle_by_each c marshaler group name msg true hs in
      if name == marshaler.name h.new_event
      then (do
        err ← decode_and_handle marshaler msg h.new_event (call_group_handler c group h name msg)
        elim err [ some e ↦ pure (some e) | none ↦ rest ])
      else skip

  -- the function that routerHandlerGroupFunc returns
  unfoldable pub handle_group :
      EventGroupProcessorConfig S V
      → Marshaler S V
      → String
      → List (GroupEventHandler S V)
      → NoPublishHandlerFunc S
  unfolding read handle_by_each
  handle_group c marshaler group handlers msg = do
    name ← read msg marshaler.name_from_message
    handle_by_each c marshaler group name msg false handlers

  -- the first loop of addHandlerToRouter
  unfoldable pub validate_events : (V → Bool) → List (GroupEventHandler S V) → Option Err
  unfolding validate_pointer
  validate_events is_pointer [] = none
  validate_events is_pointer (h ∷ hs) =
      let rest = validate_events is_pointer hs in
      elim (validate_pointer is_pointer h.new_event) [
        | some e ↦ some (Err.wrap e "invalid event for handler")
        | none ↦ rest
      ]

  add_with_topic :
      EventGroupProcessorConfig S V
      → Marshaler S V
      → String
      → List (GroupEventHandler S V)
      → Result String
      → Go (RunState S) (Option Err)
  unfolding handle_group add_with_subscriber
  add_with_topic c marshaler group hs (Result.fail e) =
      pure (some (Err.wrap e "cannot generate topic name for handler group"))
  add_with_topic c marshaler group hs (Result.ok topic) = do
    subscriber ← on_world (needs c.subscriber_constructor λ construct. construct group hs)
    add_with_subscriber group topic (handle_group c marshaler group hs) subscriber

  -- EventGroupProcessor.addHandlerToRouter
  unfoldable pub add_group_to_router :
      (V → Bool)
      → EventGroupProcessorConfig S V
      → Marshaler S V
      → String
      → List (GroupEventHandler S V)
      → Go (RunState S) (Option Err)
  unfolding validate_events add_with_topic
  add_group_to_router is_pointer c marshaler group hs = elim (validate_events is_pointer hs) [
    | some e ↦ pure (some e)
    | none ↦ (do
      topic ← on_world (needs c.generate_subscribe_topic λ generate. generate group hs)
      add_with_topic c marshaler group hs topic)
  ]

  put_group :
      String
      → List (GroupEventHandler S V)
      → Option Err
      → Go (RunState S × EventGroupProcessor S V) (Option Err)
  put_group group hs (some e) (s, p) = (Outcome.done (some e), (s, p))
  put_group group hs none (s, p) = (
    Outcome.done none,
    (s, record p { group_event_handlers = insert group hs p.group_event_handlers }),
  )

  add_new_group :
      (V → Bool)
      → Marshaler S V
      → String
      → List (GroupEventHandler S V)
      → Option (List (GroupEventHandler S V))
      → Go (RunState S × EventGroupProcessor S V) (Option Err)
  unfolding add_group_to_router put_group
  add_new_group is_pointer marshaler group hs (some old) (s, p) =
      (Outcome.done (some (Err.new "event handler group already exists")), (s, p))
  add_new_group is_pointer marshaler group hs none (s, p) =
      let (out, s') = add_group_to_router is_pointer p.config marshaler group hs s in
      resume out (put_group group hs) (s', p)

  -- EventGroupProcessor.AddHandlersGroup
  unfoldable pub add_handlers_group :
      (V → Bool)
      → Marshaler S V
      → String
      → List (GroupEventHandler S V)
      → Go (RunState S × EventGroupProcessor S V) (Option Err)
  unfolding add_new_group lookup
  add_handlers_group is_pointer marshaler group [] (s, p) =
      (Outcome.done (some (Err.new "no handlers provided")), (s, p))
  add_handlers_group is_pointer marshaler group (h ∷ hs) (s, p) =
      add_new_group is_pointer marshaler group (h ∷ hs) (lookup group p.group_event_handlers) (s, p)
