-- ===== src/Cqrs/RoundTrip.antt =====
-- A command that is sent over the command bus is the command that its handler gets.
use watermill.Prelude.{
  ℕ, ◌+◌, String, eq_iff, Option, none, some, List, [], ◌∷◌, ◌≡◌, refl, ap, ◌∙◌, arith, lookup,
  =ℕ_refl, eq_refl,
}
use watermill.Go.{Outcome, Result, Context, pure, ◌>>=◌, ◌>>◌, >>=_parts}
use watermill.Message.Headers
use watermill.Message.Defs.{Message, new_message, set_context}
use watermill.Runtime.{World, M, read, alloc, update, on_message, set_metadata, set_message_context}
use watermill.Runtime.Laws.{written, IsWritable, set_metadata_lem}
use watermill.Cqrs.Defs.{Marshaler, CommandHandler, Json, json_marshaler, new_json_message, or_else}
use watermill.Cqrs.Buses.{
  CommandBus, send, send_with_modified_message, new_bus_message, with_bus_topic, modify_by,
}
use watermill.Cqrs.CommandProcessor.{CommandProcessorConfig, call_handler, handle_command, acked}
use watermill.Cqrs.Settling.{with_original, original_ctx, handle_command-decoded}

-- what a marshaler reads of a message
abbrev pub SameContent : Message → Message → Type 0
SameContent a b = (b.payload ≡ a.payload) × (b.metadata ≡ a.metadata)

SameContent-with_original :
    {S : Type 0} (a : Message) (msg : ℕ) (w : World S)
    → SameContent a (w.cells msg)
    → SameContent a ((with_original msg w).cells msg)
SameContent-with_original a msg w (p, q) = ground (arith, =ℕ_refl msg)

-- A marshaler reads what it has written, from a message whose payload and metadata stayed, into a
-- value whose name is that of the first.
pub record IsFaithful {S V : Type 0} (m : Marshaler S V) : Type 0 where
  pub named :
      (v : V) (w w1 : World S) (msg : ℕ)
      → m.marshal v w ≡ (Outcome.done (Result.ok msg), w1)
      → (later : World S) → SameContent (w1.cells msg) (later.cells msg)
      → m.name_from_message (later.cells msg) ≡ m.name v
  pub read_back :
      (v into : V) (w w1 : World S) (msg : ℕ)
      → m.marshal v w ≡ (Outcome.done (Result.ok msg), w1)
      → m.name into ≡ m.name v
      → (later : World S) → SameContent (w1.cells msg) (later.cells msg)
      → m.unmarshal msg into later ≡ (Outcome.done (Result.ok v), later)

-- What encoding/json does with the values of the program: it reads what it has written.
abbrev pub ReadsBack : {S V : Type 0} → Json S V → (V → String) → Type 0
ReadsBack {V = V} json name =
    (v into : V) (b : List ℕ)
    → json.marshal v ≡ Result.ok b
    → name into ≡ name v
    → json.unmarshal b into ≡ Result.ok v

module _ {S V : Type 0} (json : Json S V) (new_uuid : Option (M S String)) (name : String) where
  -- What a message made by JSONMarshaler has.
  made : (uuid : String) (b : List ℕ) → Message
  made uuid b = written "name" name (new_message uuid b)

  -- the rest of Marshal, from where there is a UUID
  filled : List ℕ → String → M S (Result ℕ)
  filled b uuid = do
    msg ← alloc (new_message uuid b)
    set_metadata msg "name" name
    pure (Result.ok msg)

  filled_parts :
      (b : List ℕ) (uuid : String) (w w1 : World S) (msg : ℕ)
      → filled b uuid w ≡ (Outcome.done (Result.ok msg), w1)
      → w1.cells msg ≡ made uuid b
  unfolding filled made alloc new_message
  filled_parts b uuid w w1 msg h =
      let start = record w {
        cells = update w.cells w.next (new_message uuid b);
        next = w.next + 1;
      } in
      let writable : IsWritable (start.cells w.next) = λ e. ground (arith, =ℕ_refl w.next) in
      let wrote = set_metadata_lem w.next "name" name start writable in
      ground (arith, wrote, =ℕ_refl w.next)

  new_json_message_parts :
      (r : Result (List ℕ)) (w w1 : World S) (msg : ℕ)
      → new_json_message json new_uuid name r w ≡ (Outcome.done (Result.ok msg), w1)
      → (b : List ℕ) × (r ≡ Result.ok b) × (uuid : String) × (w1.cells msg ≡ made uuid b)
  unfolding new_json_message made filled
  new_json_message_parts (Result.fail e) w w1 msg h = cc
  new_json_message_parts (Result.ok b) w w1 msg h =
      let (uuid, e, f) =
        >>=_parts (or_else new_uuid json.new_uuid) (filled b) w w1 (Result.ok msg) h in
      (b, refl, uuid, filled_parts b uuid (or_else new_uuid json.new_uuid w).1 w1 msg f)

module _ {S V : Type 0} (json : Json S V) (new_uuid : Option (M S String))
    (generate_name : Option (V → String)) where
  -- Where encoding/json reads back what it has written, JSONMarshaler reads back the commands and events
  -- that it has written, and their names, from every message with the payload and the metadata of the
  -- one that it made.
  pub json_marshaler-IsFaithful :
      ReadsBack json (json_marshaler json new_uuid generate_name).name
      → IsFaithful (json_marshaler json new_uuid generate_name)
  unfolding json_marshaler made new_message Headers.get lookup read
  json_marshaler-IsFaithful reads =
      let name = or_else generate_name json.fully_qualified_struct_name in
      record {
        named = λ v w w1 msg h later (p, q).
            let (b, e, uuid, m) =
              new_json_message_parts json new_uuid (name v) (json.marshal v) w w1 msg h in
            ground (arith, m, q, eq_refl "name");
        read_back = λ v into w w1 msg h same later (p, q).
            let (b, e, uuid, m) =
              new_json_message_parts json new_uuid (name v) (json.marshal v) w w1 msg h in
            let payload : (later.cells msg).payload ≡ b = p ∙ ap (λ x. x.payload) m in
            ap (λ r. (Outcome.done r, later)) (rw payload (reads v into b e same));
      }

module _ {S V : Type 0} where
  -- Send, where nothing fails before the message is published
  pub send_lem :
      (c : CommandBus S V) (m : Marshaler S V) (generate : String → V → M S (Result String))
      (ctx : Context) (cmd : V) (w w1 w2 : World S) (msg : ℕ) (topic : String)
      → c.config.marshaler ≡ some m
      → c.config.generate_publish_topic ≡ some generate
      → c.config.on_send ≡ none
      → m.marshal cmd w ≡ (Outcome.done (Result.ok msg), w1)
      → generate (m.name cmd) cmd w1 ≡ (Outcome.done (Result.ok topic), w2)
      → send c ctx cmd w
        ≡ c.publisher.publish topic
            (msg ∷ [])
            (record w2 { cells = update w2.cells msg (set_context ctx (w2.cells msg)) })
  unfolding send send_with_modified_message new_bus_message with_bus_topic modify_by
      set_message_context on_message
  send_lem c m generate ctx cmd w w1 w2 msg topic has_m has_g no_hook marshaled generated =
      rw (has_m, marshaled, has_g, generated, no_hook) refl

  -- A command bus and a command processor with one marshaler that reads back what it has written, a
  -- topic that is generated, and no OnSend: Send publishes one message to that topic, made of the
  -- command, with the context of the call; and when a message with the payload and the metadata of that
  -- one reaches a handler of commands with this name, then the handler, or OnHandle, gets the command
  -- that was sent.
  pub sent_command_is_handled :
      (c : CommandBus S V) (m : Marshaler S V) (generate : String → V → M S (Result String))
      (p : CommandProcessorConfig S V) (handler : CommandHandler S V) (ctx : Context) (cmd : V)
      (w w1 w2 later : World S) (msg : ℕ) (topic : String)
      → IsFaithful m
      → c.config.marshaler ≡ some m
      → c.config.generate_publish_topic ≡ some generate
      → c.config.on_send ≡ none
      → m.marshal cmd w ≡ (Outcome.done (Result.ok msg), w1)
      → generate (m.name cmd) cmd w1 ≡ (Outcome.done (Result.ok topic), w2)
      → m.name handler.new_command ≡ m.name cmd
      → SameContent (w1.cells msg) (later.cells msg)
      → (send c ctx cmd w
          ≡ c.publisher.publish topic
              (msg ∷ [])
              (record w2 { cells = update w2.cells msg (set_context ctx (w2.cells msg)) }))
        × (handle_command p m handler msg later
            ≡ (do
              err ← call_handler p handler (m.name cmd) msg (original_ctx msg later) cmd
              pure (acked p.ack_command_handling_errors err))
                (with_original msg later))
  sent_command_is_handled c m generate p handler ctx cmd w w1 w2 later msg topic faithful has_m
        has_g no_hook marshaled generated same content =
      let named = faithful.named cmd w w1 msg marshaled later content in
      (
        send_lem c m generate ctx cmd w w1 w2 msg topic has_m has_g no_hook marshaled generated,
        handle_command-decoded p m handler msg later (with_original msg later) cmd
              (ground (
                arith,
                named,
                same,
                eq_iff (m.name_from_message (later.cells msg)) (m.name handler.new_command),
              ))
              (faithful.read_back cmd handler.new_command w w1 msg marshaled same
                (with_original msg later)
                (SameContent-with_original (w1.cells msg) msg later content))
            ∙ ap
                (λ name.
                  (do
                    err ← call_handler p handler name msg (original_ctx msg later) cmd
                    pure (acked p.ack_command_handling_errors err))
                    (with_original msg later))
                named,
      )
