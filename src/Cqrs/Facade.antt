-- ===== src/Cqrs/Facade.antt =====
-- components/cqrs/cqrs.go: the deprecated Facade. Its logger is a field that may be missing.
use watermill.Prelude.{String, Bool, true, false, ◌||◌, if◌then◌else◌, Option, none, some, List}
use watermill.Go.{Err, Result, Go, join_err, pure, panic, ◌>>=◌}
use watermill.Runtime.{M}
use watermill.PubSub.{Publisher, Subscriber, nil_dereference}
use watermill.Router.Running.{RunState}
use watermill.Cqrs.Defs.{Marshaler, CommandHandler, EventHandler}
use watermill.Cqrs.Buses.{CommandBus, EventBus, missing, new_command_bus, new_event_bus}
use watermill.Cqrs.CommandProcessor.{CommandProcessor}
use watermill.Cqrs.AddingCommands.{new_command_processor, add_handlers_to_router}
use watermill.Cqrs.EventProcessor.{EventProcessor}
use watermill.Cqrs.AddingEvents.{new_event_processor, add_event_handlers_to_router}

pub record FacadeConfig (S V : Type 0) : Type 0 where
  pub generate_commands_topic : Option (String → String)
  pub command_handlers :
      Option (Option (CommandBus S V) → Option (EventBus S V) → List (CommandHandler S V))
  pub commands_publisher : Option (Publisher S)
  pub commands_subscriber_constructor : Option (String → M S (Result (Subscriber S)))
  pub generate_events_topic : Option (String → String)
  pub event_handlers :
      Option (Option (CommandBus S V) → Option (EventBus S V) → List (EventHandler S V))
  pub events_publisher : Option (Publisher S)
  pub events_subscriber_constructor : Option (String → M S (Result (Subscriber S)))
  pub has_router : Bool
  pub has_logger : Bool
  pub command_event_marshaler : Option (Marshaler S V)

pub record Facade (S V : Type 0) : Type 0 where
  pub command_bus : Option (CommandBus S V)
  pub event_bus : Option (EventBus S V)
  pub command_event_marshaler : Option (Marshaler S V)

abbrev pub is_set : {A : Type 0} → Option A → Bool
is_set (some a) = true
is_set none = false

abbrev pub unset : Bool → String → Option Err → Option Err
unset true text err = err
unset false text err = some (join_err err (Err.new text))

wrapped : {A : Type 0} → String → Result A → Result (Option A)
wrapped text (Result.fail e) = Result.fail (Err.wrap e text)
wrapped text (Result.ok a) = Result.ok (some a)

module _ {S V : Type 0} where
  -- FacadeConfig.CommandsEnabled
  unfoldable pub commands_enabled : FacadeConfig S V → Bool
  commands_enabled c =
      is_set c.generate_commands_topic
      || (is_set c.commands_publisher || is_set c.commands_subscriber_constructor)

  -- FacadeConfig.EventsEnabled
  unfoldable pub events_enabled : FacadeConfig S V → Bool
  events_enabled c =
      is_set c.generate_events_topic
      || (is_set c.events_publisher || is_set c.events_subscriber_constructor)

  commands_missing : FacadeConfig S V → Option Err → Option Err
  commands_missing c err = missing c.commands_publisher "CommandsPublisher is nil" (
      missing c.commands_subscriber_constructor "CommandsSubscriberConstructor is nil"
        (missing c.generate_commands_topic "GenerateCommandsTopic is nil" err))

  events_missing : FacadeConfig S V → Option Err → Option Err
  events_missing c err = missing c.events_publisher "EventsPublisher is nil" (
      missing c.events_subscriber_constructor "EventsSubscriberConstructor is nil"
        (missing c.generate_events_topic "GenerateEventsTopic is nil" err))

  -- FacadeConfig.Validate
  unfoldable pub validate_facade : FacadeConfig S V → Option Err
  unfolding commands_enabled events_enabled commands_missing events_missing
  validate_facade c =
      let commands = if commands_enabled c then commands_missing c none else none in
      let events = if events_enabled c then events_missing c commands else commands in
      missing c.command_event_marshaler "CommandEventMarshaler is nil"
        (unset c.has_logger "Logger is nil" (unset c.has_router "Router is nil" events))

  facade_command_bus : FacadeConfig S V → Result (Option (CommandBus S V))
  unfolding commands_enabled new_command_bus wrapped
  facade_command_bus c =
      if commands_enabled c
      then wrapped "cannot create command bus"
          (new_command_bus c.commands_publisher c.generate_commands_topic c.command_event_marshaler)
      else Result.ok none

  facade_event_bus : FacadeConfig S V → Result (Option (EventBus S V))
  unfolding events_enabled new_event_bus wrapped
  facade_event_bus c =
      if events_enabled c
      then wrapped "cannot create event bus"
          (new_event_bus c.events_publisher c.generate_events_topic c.command_event_marshaler)
      else Result.ok none

  add_processor :
      (V → Bool)
      → Option (Marshaler S V)
      → Result (CommandProcessor S V)
      → Go (RunState S) (Option Err)
  unfolding add_handlers_to_router
  add_processor is_pointer marshaler (Result.fail e) =
      pure (some (Err.wrap e "cannot create command processor"))
  add_processor is_pointer none (Result.ok p) = panic nil_dereference
  add_processor is_pointer (some marshaler) (Result.ok p) =
      add_handlers_to_router is_pointer marshaler p

  add_commands : (V → Bool) → FacadeConfig S V → Facade S V → Go (RunState S) (Option Err)
  unfolding add_processor new_command_processor
  add_commands is_pointer c f = elim c.command_handlers [
    | none ↦ pure none
    | some handlers ↦ (do
      p ←
          new_command_processor is_pointer (handlers f.command_bus f.event_bus)
            c.generate_commands_topic c.commands_subscriber_constructor c.command_event_marshaler
      add_processor is_pointer c.command_event_marshaler p)
  ]

  add_event_processor :
      (V → Bool)
      → Option (Marshaler S V)
      → Result (EventProcessor S V)
      → Go (RunState S) (Option Err)
  unfolding add_event_handlers_to_router
  add_event_processor is_pointer marshaler (Result.fail e) =
      pure (some (Err.wrap e "cannot create event processor"))
  add_event_processor is_pointer none (Result.ok p) = panic nil_dereference
  add_event_processor is_pointer (some marshaler) (Result.ok p) =
      add_event_handlers_to_router is_pointer marshaler p

  add_events : (V → Bool) → FacadeConfig S V → Facade S V → Go (RunState S) (Option Err)
  unfolding add_event_processor new_event_processor
  add_events is_pointer c f = elim c.event_handlers [
    | none ↦ pure none
    | some handlers ↦ add_event_processor is_pointer c.command_event_marshaler (
        new_event_processor (handlers f.command_bus f.event_bus) c.generate_events_topic
          c.events_subscriber_constructor c.command_event_marshaler)
  ]

  add_processors :
      (V → Bool) → FacadeConfig S V → Facade S V → Go (RunState S) (Result (Facade S V))
  unfolding add_commands add_events
  add_processors is_pointer c f = do
    failed ← add_commands is_pointer c f
    elim failed [
      | some e ↦ pure (Result.fail e)
      | none ↦ (do
        failed ← add_events is_pointer c f
        elim failed [ some e ↦ pure (Result.fail e) | none ↦ pure (Result.ok f) ])
    ]

  with_buses :
      (V → Bool)
      → FacadeConfig S V
      → Result (Option (CommandBus S V))
      → Result (Option (EventBus S V))
      → Go (RunState S) (Result (Facade S V))
  unfolding add_processors
  with_buses is_pointer c (Result.fail e) events = pure (Result.fail e)
  with_buses is_pointer c (Result.ok commands) (Result.fail e) = pure (Result.fail e)
  with_buses is_pointer c (Result.ok commands) (Result.ok events) =
      add_processors is_pointer c (record {
        command_bus = commands;
        event_bus = events;
        command_event_marshaler = c.command_event_marshaler;
      })

  -- NewFacade
  unfoldable pub new_facade : (V → Bool) → FacadeConfig S V → Go (RunState S) (Result (Facade S V))
  unfolding validate_facade with_buses facade_command_bus facade_event_bus
  new_facade is_pointer c = elim (validate_facade c) [
    | some e ↦ pure (Result.fail (Err.wrap e "invalid config"))
    | none ↦ with_buses is_pointer c (facade_command_bus c) (facade_event_bus c)
  ]
