-- ===== src/Cqrs/CommandProcessor.antt =====
-- components/cqrs/command_processor.go. The loggers are left out, and setDefaults with them.
use watermill.Prelude.{
  ℕ, String, Bool, true, false, ◌==◌, if◌then◌else◌, Option, none, some, List, [], ◌∷◌,
}
use watermill.Go.{Err, Result, Go, Context, pure, ◌>>=◌, ◌>>◌}
use watermill.Runtime.{M, read}
use watermill.PubSub.{Subscriber, NoPublishHandlerFunc}
use watermill.Router.Defs.{Router, add_consumer_handler}
use watermill.Router.Running.{RunState, on_world}
use watermill.Cqrs.Defs.{Marshaler, CommandHandler, needs, validate_pointer, decode_and_handle}
use watermill.Cqrs.Buses.{missing}

-- the parameters of OnHandle
pub record OnHandleParams (S V : Type 0) : Type 0 where
  pub handler : CommandHandler S V
  pub command_name : String
  pub command : V
  pub message : ℕ

pub record CommandProcessorConfig (S V : Type 0) : Type 0 where
  pub generate_subscribe_topic : Option (String → CommandHandler S V → M S (Result String))
  pub subscriber_constructor :
      Option (String → String → CommandHandler S V → M S (Result (Subscriber S)))
  pub on_handle : Option (OnHandleParams S V → M S (Option Err))
  pub marshaler : Option (Marshaler S V)
  pub ack_command_handling_errors : Bool
  pub disable_router_auto_add_handlers : Bool

-- The router is in the state, RunState; `has_router` says that the field is not nil.
pub record CommandProcessor (S V : Type 0) : Type 0 where
  pub has_router : Bool
  pub handlers : List (CommandHandler S V)
  pub config : CommandProcessorConfig S V

-- DuplicateCommandHandlerError
abbrev pub duplicate_command_handler : String → Err
duplicate_command_handler name = Err.typed "DuplicateCommandHandlerError" name

abbrev pub on_router : {S A : Type 0} → Go (Router S) A → Go (RunState S) A
on_router m s = let (out, r) = m s.router in (out, record s { router = r })

-- `[]string` as the set of keys of a map
unfoldable pub has_key : String → List String → Bool
has_key k [] = false
has_key k (j ∷ js) = if j == k then true else has_key k js

abbrev pub acked : Bool → Option Err → Option Err
acked true err = none
acked false err = err

abbrev pub func_unless :
    {S : Type 0} → Option Err → NoPublishHandlerFunc S → Result (NoPublishHandlerFunc S)
func_unless (some e) f = Result.fail e
func_unless none f = Result.ok f

module _ {S V : Type 0} where
  -- CommandProcessorConfig.Validate
  unfoldable pub validate_command_processor : CommandProcessorConfig S V → Option Err
  validate_command_processor c = missing c.subscriber_constructor "missing SubscriberConstructor" (
      missing c.generate_subscribe_topic "missing GenerateSubscribeTopic"
        (missing c.marshaler "missing Marshaler" none))

  with_valid_config : Bool → CommandProcessorConfig S V → Option Err → Result (CommandProcessor S V)
  with_valid_config has_router c (some e) = Result.fail e
  with_valid_config true c none =
      Result.ok (record { has_router = true; handlers = []; config = c })
  with_valid_config false c none =
      if c.disable_router_auto_add_handlers
      then Result.ok (record { has_router = false; handlers = []; config = c })
      else Result.fail (Err.new "missing router")

  -- NewCommandProcessorWithConfig
  unfoldable pub new_command_processor_with_config :
      Bool → CommandProcessorConfig S V → Result (CommandProcessor S V)
  unfolding with_valid_config validate_command_processor
  new_command_processor_with_config has_router c =
      with_valid_config has_router c (validate_command_processor c)

  -- the call of the handler, or of OnHandle in its place
  unfoldable pub call_handler :
      CommandProcessorConfig S V → CommandHandler S V → String → ℕ → Context → V → M S (Option Err)
  call_handler c handler name msg ctx cmd = elim c.on_handle [
    | none ↦ handler.handle ctx cmd
    | some f ↦ f (record { handler = handler; command_name = name; command = cmd; message = msg })
  ]

  -- the function that routerHandlerFunc returns, by whether the message is of the handler's command;
  -- AckCommandHandlingErrors drops what the handler returns, not what Unmarshal does
  unfoldable pub handle_command :
      CommandProcessorConfig S V → Marshaler S V → CommandHandler S V → NoPublishHandlerFunc S
  unfolding read decode_and_handle call_handler
  handle_command c marshaler handler msg = do
    name ← read msg marshaler.name_from_message
    (if name == marshaler.name handler.new_command
        then decode_and_handle marshaler msg handler.new_command (λ ctx cmd. (do
          err ← call_handler c handler name msg ctx cmd
          pure (acked c.ack_command_handling_errors err)))
        else pure none)

  -- CommandProcessor.routerHandlerFunc
  unfoldable pub router_handler_func :
      (V → Bool)
      → CommandProcessorConfig S V
      → Marshaler S V
      → CommandHandler S V
      → Result (NoPublishHandlerFunc S)
  unfolding handle_command validate_pointer
  router_handler_func is_pointer c marshaler handler =
      func_unless (validate_pointer is_pointer handler.new_command)
        (handle_command c marshaler handler)

  unfoldable pub add_with_subscriber :
      CommandHandler S V
      → String
      → NoPublishHandlerFunc S
      → Result (Subscriber S)
      → Go (RunState S) (Option Err)
  add_with_subscriber handler topic f (Result.fail e) =
      pure (some (Err.wrap e "cannot create subscriber for command processor"))
  add_with_subscriber handler topic f (Result.ok subscriber) = do
    on_router (add_consumer_handler handler.handler_name topic subscriber f)
    pure none

  unfoldable pub add_with_func :
      CommandProcessorConfig S V
      → Marshaler S V
      → CommandHandler S V
      → String
      → Result (NoPublishHandlerFunc S)
      → Go (RunState S) (Option Err)
  unfolding add_with_subscriber
  add_with_func c marshaler handler topic (Result.fail e) = pure (some e)
  add_with_func c marshaler handler topic (Result.ok f) = do
    subscriber ← on_world (
        needs c.subscriber_constructor
          λ construct. construct (marshaler.name handler.new_command) handler.handler_name handler)
    add_with_subscriber handler topic f subscriber

  unfoldable pub add_with_topic :
      (V → Bool)
      → CommandProcessorConfig S V
      → Marshaler S V
      → CommandHandler S V
      → Result String
      → Go (RunState S) (Option Err)
  unfolding router_handler_func add_with_func
  add_with_topic is_pointer c marshaler handler (Result.fail e) =
      pure (some (Err.wrap e "cannot generate topic for command handler"))
  add_with_topic is_pointer c marshaler handler (Result.ok topic) =
      add_with_func c marshaler handler topic (router_handler_func is_pointer c marshaler handler)

  -- CommandProcessor.addHandlerToRouter
  unfoldable pub add_handler_to_router :
      (V → Bool)
      → CommandProcessorConfig S V
      → Marshaler S V
      → CommandHandler S V
      → Go (RunState S) (Option Err)
  unfolding add_with_topic
  add_handler_to_router is_pointer c marshaler handler = do
    topic ← on_world (
        needs c.generate_subscribe_topic
          λ generate. generate (marshaler.name handler.new_command) handler)
    add_with_topic is_pointer c marshaler handler topic
