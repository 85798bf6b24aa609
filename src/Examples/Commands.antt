-- ===== src/Examples/Commands.antt =====
-- The theorems on commands and events at concrete buses, processors and handlers.
use watermill.Prelude.{
  ℕ, String, Bool, true, false, none, some, List, [], ◌∷◌, ◌≡◌, refl, sym, arith, keep, lookup,
  insert,
}
use mathlib.Core.List.{Memᴰ}
use watermill.Go.{Err, Outcome, Result, Context, pure, ◌>>=◌}
use watermill.Message.Headers
use watermill.Message.Defs.{new_message, set_context}
use watermill.Runtime.{World, M, update, alloc, set_metadata, on_message, read}
use watermill.Router.Defs.{
  handler_func_adapter, new_router, add_consumer_handler, add_handler, register,
}
use watermill.Router.Handling.{handle_message}
use watermill.Router.Running.{RunState}
use watermill.Router.Settlement.{verdict, settle_at, drop_running}
use watermill.Cqrs.Defs.{
  Marshaler, CommandHandler, GroupEventHandler, Json, json_marshaler, new_json_message,
  original_message_from_ctx, validate_pointer,
}
use watermill.Cqrs.Buses.{CommandBus, send}
use watermill.Cqrs.CommandProcessor.{
  CommandProcessorConfig, CommandProcessor, handle_command, call_handler, acked,
  duplicate_command_handler, add_handler_to_router, add_with_topic, add_with_func,
  add_with_subscriber, router_handler_func, has_key,
}
use watermill.Cqrs.AddingCommands.{
  add_handlers, new_command_processor, deprecated_config, first_duplicate, add_unless_duplicate,
  add_each, after_added,
}
use watermill.Cqrs.EventGroups.{EventGroupProcessorConfig, handle_group}
use watermill.Cqrs.GroupOrder.{by_those, is_for, handle_group_lem}
use watermill.Cqrs.Settling.{with_original, original_ctx, command_settles_message}
use watermill.Cqrs.RoundTrip.{IsFaithful, json_marshaler-IsFaithful, sent_command_is_handled}
use watermill.Cqrs.Registering.{add_handlers_rejects_duplicates, new_command_processor_lem}
use watermill.Cqrs.Registered.{AllAdded, add_handlers_registers}
use watermill.Examples.Data.{Log, world, recorder, silent, handler, open≢closed}

-- commands are lists of bytes
abbrev bytes_json : Json Log (List ℕ)
bytes_json = record {
  marshal = λ v. Result.ok v;
  unmarshal = λ b into. Result.ok b;
  new_uuid = pure "uuid";
  fully_qualified_struct_name = λ v. "bytes";
}

value_of : Result (List ℕ) → List ℕ
value_of (Result.ok v) = v
value_of (Result.fail e) = []

abbrev marshaler : Marshaler Log (List ℕ)
marshaler = json_marshaler bytes_json none none

marshaler-IsFaithful : IsFaithful marshaler
marshaler-IsFaithful = json_marshaler-IsFaithful bytes_json none none (λ v into b e same. sym e)

abbrev to_topic : String → List ℕ → M Log (Result String)
to_topic name v = pure (Result.ok "commands")

abbrev bus : CommandBus Log (List ℕ)
bus = record {
  publisher = recorder;
  config = record {
    generate_publish_topic = some to_topic;
    on_send = none;
    marshaler = some marshaler;
  };
}

abbrev failing_handler : String → CommandHandler Log (List ℕ)
failing_handler name = record {
  handler_name = name;
  new_command = [];
  handle = λ ctx cmd. pure (some (Err.new "failed"));
}

abbrev processor_config : CommandProcessorConfig Log (List ℕ)
processor_config = record {
  generate_subscribe_topic = some (λ name h. pure (Result.ok "commands"));
  subscriber_constructor = some (λ command name h. pure (Result.ok silent));
  on_handle = none;
  marshaler = some marshaler;
  ack_command_handling_errors = true;
  disable_router_auto_add_handlers = false;
}

abbrev sent : World Log
unfolding json_marshaler new_json_message new_message alloc set_metadata
sent = (marshaler.marshal (1 ∷ 2 ∷ []) world).1

sent_command_is_handled_example :
    (send bus Context.background (1 ∷ 2 ∷ []) world
      ≡ recorder.publish "commands" (5 ∷ []) (record sent {
        cells = update sent.cells 5 (set_context Context.background (sent.cells 5));
      }))
    × (handle_command processor_config marshaler (failing_handler "h") 5 sent
        ≡ (do
          err ←
              call_handler processor_config
                (failing_handler "h")
                "bytes"
                5
                (original_ctx 5 sent)
                (1 ∷ 2 ∷ [])
          pure (acked true err))
            (with_original 5 sent))
unfolding json_marshaler new_json_message new_message alloc set_metadata on_message Headers.set
    insert
sent_command_is_handled_example =
    sent_command_is_handled bus marshaler to_topic processor_config (failing_handler "h")
      Context.background (1 ∷ 2 ∷ []) world sent sent sent 5 "commands" marshaler-IsFaithful refl
      refl refl refl refl refl (refl, refl)

-- a failing handler under AckCommandHandlingErrors: the message gets Ack
command_settles_message_example :
    (original_message_from_ctx (original_ctx 5 sent) ≡ some 5)
    × (handle_message handler 5
          (handler_func_adapter (handle_command processor_config marshaler (failing_handler "h")))
          sent
        ≡ (
          Outcome.done tt,
          drop_running (
              settle_at
                (verdict (Outcome.done (acked true (some (Err.new "failed")))))
                5
                (with_original 5 sent)),
        ))
unfolding json_marshaler new_json_message new_message alloc set_metadata on_message Headers.set
    insert read lookup Headers.get
command_settles_message_example =
    command_settles_message processor_config marshaler (failing_handler "h") 5 handler sent
      (with_original 5 sent) (with_original 5 sent) (1 ∷ 2 ∷ []) (some (Err.new "failed")) refl refl
      refl refl (open≢closed, open≢closed) (ground arith)

abbrev start : RunState Log × CommandProcessor Log (List ℕ)
start = (
  record { router = new_router 0; world = world },
  record { has_router = true; handlers = []; config = processor_config },
)

abbrev is_pointer : List ℕ → Bool
is_pointer v = true

abbrev started : RunState Log × CommandProcessor Log (List ℕ)
started = (add_handlers is_pointer processor_config marshaler (failing_handler "a" ∷ []) start).1

add_handlers_registers_example :
    AllAdded is_pointer processor_config marshaler
      (failing_handler "a" ∷ [])
      start.0
      started.0
      start.1
      started.1
unfolding add_handlers first_duplicate has_key add_unless_duplicate add_each add_handler_to_router
    add_with_topic router_handler_func validate_pointer add_with_func add_with_subscriber
    add_consumer_handler add_handler register lookup new_router after_added
add_handlers_registers_example =
    add_handlers_registers is_pointer processor_config marshaler (failing_handler "a" ∷ []) start.0
      started.0 start.1 started.1 refl refl

add_handlers_rejects_duplicates_example :
    (name : String) × (add_handlers is_pointer processor_config marshaler
        (failing_handler "a" ∷ failing_handler "b" ∷ [])
        start
      ≡ (Outcome.done (some (duplicate_command_handler name)), start))
add_handlers_rejects_duplicates_example =
    add_handlers_rejects_duplicates marshaler is_pointer processor_config [] (failing_handler "a")
      (failing_handler "b") (failing_handler "b" ∷ []) start (Memᴰ.head refl) refl

new_command_processor_lem_example :
    new_command_processor is_pointer
      (failing_handler "a" ∷ failing_handler "b" ∷ [])
      (some (λ name. name))
      (some (λ name. pure (Result.ok silent)))
      (some marshaler)
      start.0
    ≡ (
      Outcome.done (
          Result.ok (record {
            has_router = false;
            handlers = failing_handler "a" ∷ failing_handler "b" ∷ [];
            config =
                deprecated_config (λ name. name) (λ name. pure (Result.ok silent)) (some marshaler);
          })),
      start.0,
    )
new_command_processor_lem_example =
    new_command_processor_lem marshaler is_pointer (failing_handler "a") (failing_handler "b" ∷ [])
      (λ name. name) (λ name. pure (Result.ok silent)) start.0

abbrev group_config : EventGroupProcessorConfig Log (List ℕ)
group_config = record {
  generate_subscribe_topic = none;
  subscriber_constructor = none;
  on_handle = none;
  ack_on_unknown_event = false;
  marshaler = some marshaler;
}

abbrev group_handlers : List (GroupEventHandler Log (List ℕ))
group_handlers = record { new_event = []; handle = λ ctx event. pure none } ∷ []

handle_group_lem_example :
    let name = marshaler.name_from_message (sent.cells 5) in
    handle_group group_config marshaler "group" group_handlers 5 sent
    ≡ by_those group_config marshaler "group" name 5
        (keep (is_for group_config marshaler "group" name 5) group_handlers)
        sent
handle_group_lem_example = handle_group_lem group_config marshaler "group" group_handlers 5 sent
