-- ===== src/Cqrs/Defs.antt =====
-- components/cqrs: the interfaces of marshalers and handlers (marshaler.go, command_handler.go,
-- event_handler.go), the context that handlers get (ctx.go), and marshaler_json.go. `V` is the type
-- of commands and events, values and pointers to them; `json` and reflection on V are parameters.
use watermill.Prelude.{ℕ, String, Bool, if◌then◌else◌, Option, none, some, List}
use watermill.Go.{Err, Result, Context, CtxKey, CtxValue, ctx_value, pure, panic, ◌>>=◌, ◌>>◌}
use watermill.Message.Headers
use watermill.Message.Defs.{Message, new_message}
use watermill.Runtime.{M, read, alloc, set_metadata, message_context, set_message_context}
use watermill.PubSub.{nil_dereference}

-- a call of a method or function that may be nil
abbrev pub needs : {S A B : Type 0} → Option A → (A → M S B) → M S B
needs none k = panic nil_dereference
needs (some a) k = k a

-- CommandEventMarshaler. Unmarshal gives what it leaves behind the pointer `v`, which is fresh in all
-- its calls.
pub record Marshaler (S V : Type 0) : Type 0 where
  pub marshal : V → M S (Result ℕ)
  pub unmarshal : ℕ → V → M S (Result V)
  pub name : V → String
  pub name_from_message : Message → String

-- CommandHandler; NewCommand makes a new zero value each time
pub record CommandHandler (S V : Type 0) : Type 0 where
  pub handler_name : String
  pub new_command : V
  pub handle : Context → V → M S (Option Err)

-- EventHandler
pub record EventHandler (S V : Type 0) : Type 0 where
  pub handler_name : String
  pub new_event : V
  pub handle : Context → V → M S (Option Err)

-- GroupEventHandler
pub record GroupEventHandler (S V : Type 0) : Type 0 where
  pub new_event : V
  pub handle : Context → V → M S (Option Err)

message_of : Option CtxValue → Option ℕ
message_of (some (CtxValue.message p)) = some p
message_of _ = none

-- OriginalMessageFromCtx
unfoldable pub original_message_from_ctx : Context → Option ℕ
unfolding ctx_value message_of
original_message_from_ctx ctx = message_of (ctx_value ctx CtxKey.original_message)

-- CtxWithOriginalMessage
unfoldable pub ctx_with_original_message : Context → ℕ → Context
ctx_with_original_message ctx msg =
    Context.with_value CtxKey.original_message (CtxValue.message msg) ctx

-- validateEvent, validateCommand and isPointer, where `is_pointer` is what reflection says
unfoldable pub validate_pointer : {V : Type 0} → (V → Bool) → V → Option Err
validate_pointer is_pointer v =
    if is_pointer v
    then none
    else some (Err.wrap (Err.typed "NonPointerError" "") "command must be a non-nil pointer")

module _ {S V : Type 0} where
  -- the router's handler functions of commands and events, from CtxWithOriginalMessage to the call of
  -- the handler or of OnHandle
  unfoldable pub decode_and_handle :
      Marshaler S V → ℕ → V → (Context → V → M S (Option Err)) → M S (Option Err)
  unfolding message_context set_message_context ctx_with_original_message
  decode_and_handle marshaler msg v handle = do
    outer ← message_context msg
    set_message_context (ctx_with_original_message outer msg) msg
    decoded ← marshaler.unmarshal msg v
    elim decoded [
      | Result.fail e ↦ pure (some e)
      | Result.ok value ↦ handle (ctx_with_original_message outer msg) value
    ]

  decorate : Option (V → ℕ → M S (Option Err)) → V → Result ℕ → M S (Result ℕ)
  decorate f v (Result.fail e) = pure (Result.fail e)
  decorate none v (Result.ok msg) = pure (Result.fail (Err.new "DecorateFunc is nil"))
  decorate (some f) v (Result.ok msg) = do
    err ← f v msg
    elim err [
      | none ↦ pure (Result.ok msg)
      | some e ↦ pure (Result.fail (Err.wrap e "cannot decorate message"))
    ]

  -- CommandEventMarshalerDecorator
  unfoldable pub marshaler_decorator :
      Option (V → ℕ → M S (Option Err)) → Marshaler S V → Marshaler S V
  unfolding decorate
  marshaler_decorator decorate_func inner = record inner {
    marshal = λ v. (do msg ← inner.marshal v; decorate decorate_func v msg);
  }

abbrev pub or_else : {A : Type 0} → Option A → A → A
or_else (some a) b = a
or_else none b = b

-- encoding/json, watermill.NewUUID and the type names of Go
pub record Json (S V : Type 0) : Type 0 where
  pub marshal : V → Result (List ℕ)
  pub unmarshal : List ℕ → V → Result V
  pub new_uuid : M S String
  pub fully_qualified_struct_name : V → String

module _ {S V : Type 0} (json : Json S V) where
  unfoldable pub new_json_message : Option (M S String) → String → Result (List ℕ) → M S (Result ℕ)
  unfolding new_message alloc set_metadata
  new_json_message new_uuid name (Result.fail e) = pure (Result.fail e)
  new_json_message new_uuid name (Result.ok b) = do
    uuid ← or_else new_uuid json.new_uuid
    msg ← alloc (new_message uuid b)
    set_metadata msg "name" name
    pure (Result.ok msg)

  -- JSONMarshaler, with its fields NewUUID and GenerateName
  unfoldable pub json_marshaler : Option (M S String) → Option (V → String) → Marshaler S V
  unfolding new_json_message read Headers.get
  json_marshaler new_uuid generate_name =
      let name = or_else generate_name json.fully_qualified_struct_name in
      record {
        marshal = λ v. new_json_message new_uuid (name v) (json.marshal v);
        unmarshal = λ msg v. read msg (λ m. json.unmarshal m.payload v);
        name = name;
        name_from_message = λ m. Headers.get m.metadata "name";
      }
