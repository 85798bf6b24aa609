-- ===== src/Cqrs/EventProcessor.antt =====
-- components/cqrs/event_processor.go. The loggers are left out, and setDefaults with them.
use watermill.Prelude.{
  ℕ, String, Bool, true, false, ◌==◌, if◌then◌else◌, Option, none, some, List, [],
}
use watermill.Go.{Err, Result, Go, Context, pure, ◌>>=◌, ◌>>◌}
use watermill.Runtime.{M, read}
use watermill.PubSub.{Subscriber, NoPublishHandlerFunc}
use watermill.Router.Defs.{add_consumer_handler}
use watermill.Router.Running.{RunState, on_world}
use watermill.Cqrs.Defs.{Marshaler, EventHandler, needs, validate_pointer, decode_and_handle}
use watermill.Cqrs.Buses.{missing}
use watermill.Cqrs.CommandProcessor.{on_router}

-- the parameters of OnHandle
pub record OnEventParams (S V : Type 0) : Type 0 where
  pub handler : EventHandler S V
  pub event : V
  pub event_name : String
  pub message : ℕ

pub record EventProcessorConfig (S V : Type 0) : Type 0 where
  pub generate_subscribe_topic : Option (String → EventHandler S V → M S (Result String))
  pub subscriber_constructor :
      Option (String → String → EventHandler S V → M S (Result (Subscriber S)))
  pub on_handle : Option (OnEventParams S V → M S (Option Err))
  pub ack_on_unknown_event : Bool
  pub marshaler : Option (Marshaler S V)
  pub disable_router_auto_add_handlers : Bool

pub record EventProcessor (S V : Type 0) : Type 0 where
  pub has_router : Bool
  pub handlers : List (EventHandler S V)
  pub config : EventProcessorConfig S V

-- the errors of an event that has no handler
abbrev pub unexpected_event : Err
unexpected_event = Err.new "received unexpected event type"

abbrev pub unless_acked : Bool → Err → Option Err
unless_acked true e = none
unless_acked false e = some e

module _ {S V : Type 0} where
  -- EventProcessorConfig.Validate
  unfoldable pub validate_event_processor : EventProcessorConfig S V → Option Err
  validate_event_processor c = missing c.subscriber_constructor "missing SubscriberConstructor" (
      missing c.generate_subscribe_topic "missing GenerateHandlerTopic"
        (missing c.marshaler "missing Marshaler" none))

  with_valid_config : Bool → EventProcessorConfig S V → Option Err → Result (EventProcessor S V)
  with_valid_config has_router c (some e) = Result.fail (Err.wrap e "invalid config EventProcessor")
  with_valid_config true c none =
      Result.ok (record { has_router = true; handlers = []; config = c })
  with_valid_config false c none =
      if c.disable_router_auto_add_handlers
      then Result.ok (record { has_router = false; handlers = []; config = c })
      else Result.fail (Err.new "missing router")

  -- NewEventProcessorWithConfig
  unfoldable pub new_event_processor_with_config :
      Bool → EventProcessorConfig S V → Result (EventProcessor S V)
  unfolding with_valid_config validate_event_processor
  new_event_processor_with_config has_router c =
      with_valid_config has_router c (validate_event_processor c)

  -- the call of the handler, or of OnHandle in its place
  unfoldable pub call_event_handler :
      EventProcessorConfig S V → EventHandler S V → String → ℕ → Context → V → M S (Option Err)
  call_event_handler c handler name msg ctx event = elim c.on_handle [
    | none ↦ handler.handle ctx event
    | some f ↦ f (record { handler = handler; event = event; event_name = name; message = msg })
  ]

  -- the function that routerHandlerFunc returns
  unfoldable pub handle_event :
      EventProcessorConfig S V → Marshaler S V → EventHandler S V → NoPublishHandlerFunc S
  unfolding read decode_and_handle call_event_handler
  handle_event c marshaler handler msg = do
    name ← read msg marshaler.name_from_message
    (if name == marshaler.name handler.new_event
        then decode_and_handle marshaler msg handler.new_event
            (call_event_handler c handler name msg)
        else pure (unless_acked c.ack_on_unknown_event unexpected_event))

  -- EventProcessor.routerHandlerFunc
  unfoldable pub event_handler_func :
      (V → Bool)
      → EventProcessorConfig S V
      → Marshaler S V
      → EventHandler S V
      → Result (NoPublishHandlerFunc S)
  unfolding handle_event validate_pointer
  event_handler_func is_pointer c marshaler handler =
      elim (validate_pointer is_pointer handler.new_event) [
        | some e ↦ Result.fail e
        | none ↦ Result.ok (handle_event c marshaler handler)
      ]

  add_with_subscriber :
      EventHandler S V
      → String
      → NoPublishHandlerFunc S
      → Result (Subscriber S)
      → Go (RunState S) (Option Err)
  add_with_subscriber handler topic f (Result.fail e) =
      pure (some (Err.wrap e "cannot create subscriber for event processor"))
  add_with_subscriber handler topic f (Result.ok subscriber) = do
    on_router (add_consumer_handler handler.handler_name topic subscriber f)
    pure none

  construct_and_add :
      EventProcessorConfig S V
      → Marshaler S V
      → EventHandler S V
      → String
      → NoPublishHandlerFunc S
      → Go (RunState S) (Option Err)
  unfolding add_with_subscriber
  construct_and_add c marshaler handler topic f = elim c.subscriber_constructor [
    | none ↦ pure (some (Err.new "missing SubscriberConstructor config option"))
    | some construct ↦ (do
      subscriber ←
          on_world (construct (marshaler.name handler.new_event) handler.handler_name handler)
      add_with_subscriber handler topic f subscriber)
  ]

  add_with_topic :
      (V → Bool)
      → EventProcessorConfig S V
      → Marshaler S V
      → EventHandler S V
      → Result String
      → Go (RunState S) (Option Err)
  unfolding event_handler_func construct_and_add
  add_with_topic is_pointer c marshaler handler (Result.fail e) =
      pure (some (Err.wrap e "cannot generate topic name for handler"))
  add_with_topic is_pointer c marshaler handler (Result.ok topic) =
      elim (event_handler_func is_pointer c marshaler handler) [
        | Result.fail e ↦ pure (some e)
        | Result.ok f ↦ construct_and_add c marshaler handler topic f
      ]

  -- EventProcessor.addHandlerToRouter
  unfoldable pub add_event_handler_to_router :
      (V → Bool)
      → EventProcessorConfig S V
      → Marshaler S V
      → EventHandler S V
      → Go (RunState S) (Option Err)
  unfolding add_with_topic validate_pointer
  add_event_handler_to_router is_pointer c marshaler handler =
      elim (validate_pointer is_pointer handler.new_event) [
        | some e ↦ pure (some (Err.wrap e "invalid event for handler"))
        | none ↦ (do
          topic ← on_world (
              needs c.generate_subscribe_topic
                λ generate. generate (marshaler.name handler.new_event) handler)
          add_with_topic is_pointer c marshaler handler topic)
      ]
