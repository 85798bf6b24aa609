-- ===== src/Cqrs/Buses.antt =====
-- components/cqrs/command_bus.go and event_bus.go. The loggers are left out, and setDefaults with them.
use watermill.Prelude.{ℕ, String, Option, none, some, [], ◌∷◌}
use watermill.Go.{Err, Result, Context, join_err, pure, ◌>>=◌, ◌>>◌}
use watermill.Runtime.{M, set_message_context}
use watermill.PubSub.{Publisher}
use watermill.Cqrs.Defs.{Marshaler, needs}

-- `if x == nil { err = stdErrors.Join(err, errors.New(text)) }`
abbrev pub missing : {A : Type 0} → Option A → String → Option Err → Option Err
missing (some a) text err = err
missing none text err = some (join_err err (Err.new text))

abbrev pub wrap_fail : {A : Type 0} → String → Result A → Result A
wrap_fail text (Result.fail e) = Result.fail (Err.wrap e text)
wrap_fail text (Result.ok a) = Result.ok a

-- OnSend or OnPublish, if there is one
abbrev pub hook :
    {S V : Type 0} → Option (String → V → ℕ → M S (Option Err)) → String → V → ℕ → M S (Option Err)
hook none name v msg = pure none
hook (some f) name v msg = f name v msg

unfoldable pub modify_by : {S : Type 0} → Option (ℕ → M S (Option Err)) → ℕ → M S (Option Err)
modify_by none msg = pure none
modify_by (some f) msg = f msg

pub record CommandBusConfig (S V : Type 0) : Type 0 where
  pub generate_publish_topic : Option (String → V → M S (Result String))
  pub on_send : Option (String → V → ℕ → M S (Option Err))
  pub marshaler : Option (Marshaler S V)

pub record CommandBus (S V : Type 0) : Type 0 where
  pub publisher : Publisher S
  pub config : CommandBusConfig S V

module _ {S V : Type 0} where
  -- CommandBusConfig.Validate
  unfoldable pub validate_command_bus : CommandBusConfig S V → Option Err
  validate_command_bus c =
      missing c.generate_publish_topic "missing GeneratePublishTopic"
        (missing c.marshaler "missing Marshaler" none)

  validated : Publisher S → CommandBusConfig S V → Option Err → Result (CommandBus S V)
  validated publisher c (some e) = Result.fail (Err.wrap e "invalid config")
  validated publisher c none = Result.ok (record { publisher = publisher; config = c })

  -- NewCommandBusWithConfig
  unfoldable pub new_command_bus_with_config :
      Option (Publisher S) → CommandBusConfig S V → Result (CommandBus S V)
  unfolding validated validate_command_bus
  new_command_bus_with_config none c = Result.fail (Err.new "missing publisher")
  new_command_bus_with_config (some publisher) c = validated publisher c (validate_command_bus c)

  -- NewCommandBus
  unfoldable pub new_command_bus :
      Option (Publisher S)
      → Option (String → String)
      → Option (Marshaler S V)
      → Result (CommandBus S V)
  new_command_bus none generate_topic marshaler = Result.fail (Err.new "missing publisher")
  new_command_bus (some publisher) none marshaler = Result.fail (Err.new "missing generateTopic")
  new_command_bus (some publisher) (some generate_topic) none =
      Result.fail (Err.new "missing marshaler")
  new_command_bus (some publisher) (some generate_topic) (some marshaler) = Result.ok (record {
    publisher = publisher;
    config = record {
      generate_publish_topic = some (λ name v. pure (Result.ok (generate_topic name)));
      on_send = none;
      marshaler = some marshaler;
    };
  })

  -- newMessage, from where the topic has been generated
  unfoldable pub with_bus_topic :
      CommandBus S V → Context → V → String → ℕ → Result String → M S (Result (ℕ × String))
  with_bus_topic c ctx command name msg (Result.fail e) =
      pure (Result.fail (Err.wrap e "cannot generate topic name"))
  with_bus_topic c ctx command name msg (Result.ok topic) = do
    set_message_context ctx msg
    err ← hook c.config.on_send name command msg
    elim err [
      | some e ↦ pure (Result.fail (Err.wrap e "cannot execute OnSend"))
      | none ↦ pure (Result.ok (msg, topic))
    ]

  -- CommandBus.newMessage
  unfoldable pub new_bus_message : CommandBus S V → Context → V → M S (Result (ℕ × String))
  unfolding with_bus_topic
  new_bus_message c ctx command = needs c.config.marshaler λ marshaler. do
    marshaled ← marshaler.marshal command
    elim marshaled [
      | Result.fail e ↦ pure (Result.fail e)
      | Result.ok msg ↦ needs c.config.generate_publish_topic λ generate. (do
        topic ← generate (marshaler.name command) command
        with_bus_topic c ctx command (marshaler.name command) msg topic)
    ]

  -- CommandBus.SendWithModifiedMessage
  unfoldable pub send_with_modified_message :
      CommandBus S V → Context → V → Option (ℕ → M S (Option Err)) → M S (Option Err)
  unfolding new_bus_message modify_by
  send_with_modified_message c ctx cmd modify = do
    made ← new_bus_message c ctx cmd
    elim made [
      | Result.fail e ↦ pure (some e)
      | Result.ok (msg, topic) ↦ (do
        err ← modify_by modify msg
        elim err [
          | some e ↦ pure (some (Err.wrap e "cannot modify message"))
          | none ↦ c.publisher.publish topic (msg ∷ [])
        ])
    ]

  -- CommandBus.Send
  unfoldable pub send : CommandBus S V → Context → V → M S (Option Err)
  unfolding send_with_modified_message
  send c ctx cmd = send_with_modified_message c ctx cmd none

pub record EventBusConfig (S V : Type 0) : Type 0 where
  pub generate_publish_topic : Option (String → V → M S (Result String))
  pub on_publish : Option (String → V → ℕ → M S (Option Err))
  pub marshaler : Option (Marshaler S V)

pub record EventBus (S V : Type 0) : Type 0 where
  pub publisher : Publisher S
  pub config : EventBusConfig S V

module _ {S V : Type 0} where
  -- EventBusConfig.Validate
  unfoldable pub validate_event_bus : EventBusConfig S V → Option Err
  validate_event_bus c =
      missing c.generate_publish_topic "missing GenerateHandlerTopic"
        (missing c.marshaler "missing Marshaler" none)

  validated_events : Publisher S → EventBusConfig S V → Option Err → Result (EventBus S V)
  validated_events publisher c (some e) = Result.fail (Err.wrap e "invalid config")
  validated_events publisher c none = Result.ok (record { publisher = publisher; config = c })

  -- NewEventBusWithConfig
  unfoldable pub new_event_bus_with_config :
      Option (Publisher S) → EventBusConfig S V → Result (EventBus S V)
  unfolding validated_events validate_event_bus
  new_event_bus_with_config none c = Result.fail (Err.new "missing publisher")
  new_event_bus_with_config (some publisher) c = validated_events publisher c (validate_event_bus c)

  -- NewEventBus
  unfoldable pub new_event_bus :
      Option (Publisher S)
      → Option (String → String)
      → Option (Marshaler S V)
      → Result (EventBus S V)
  new_event_bus none generate_topic marshaler = Result.fail (Err.new "missing publisher")
  new_event_bus (some publisher) none marshaler = Result.fail (Err.new "missing generateTopic")
  new_event_bus (some publisher) (some generate_topic) none =
      Result.fail (Err.new "missing marshaler")
  new_event_bus (some publisher) (some generate_topic) (some marshaler) = Result.ok (record {
    publisher = publisher;
    config = record {
      generate_publish_topic = some (λ name v. pure (Result.ok (generate_topic name)));
      on_publish = none;
      marshaler = some marshaler;
    };
  })

  publish_to : EventBus S V → Context → V → String → ℕ → Result String → M S (Option Err)
  publish_to c ctx event name msg (Result.fail e) = pure (some (Err.wrap e "cannot generate topic"))
  publish_to c ctx event name msg (Result.ok topic) = do
    set_message_context ctx msg
    err ← hook c.config.on_publish name event msg
    elim err [
      | some e ↦ pure (some (Err.wrap e "cannot execute OnPublish"))
      | none ↦ c.publisher.publish topic (msg ∷ [])
    ]

  -- EventBus.Publish
  unfoldable pub publish_event : EventBus S V → Context → V → M S (Option Err)
  unfolding publish_to
  publish_event c ctx event = needs c.config.marshaler λ marshaler. do
    marshaled ← marshaler.marshal event
    elim marshaled [
      | Result.fail e ↦ pure (some e)
      | Result.ok msg ↦ needs c.config.generate_publish_topic λ generate. (do
        topic ← generate (marshaler.name event) event
        publish_to c ctx event (marshaler.name event) msg topic)
    ]
