-- ===== src/Components/Forwarder.antt =====
-- components/forwarder. JSON, and the random UUID of the envelope's message, are parameters.
use watermill.Prelude.{ℕ, String, Bool, ◌==◌, if◌then◌else◌, Option, none, some, List, [], ◌∷◌}
use watermill.Go.{Err, Result, pure, ◌>>=◌}
use watermill.Message.Headers.{Metadata}
use watermill.Message.Defs.{Message, new_message, set_context, context_of}
use watermill.Runtime.{M, read, alloc}
use watermill.PubSub.{Publisher, NoPublishHandlerFunc}

abbrev pub default_forwarder_topic : String
default_forwarder_topic = "forwarder_topic"

-- struct messageEnvelope
pub record MessageEnvelope : Type 0 where
  pub destination_topic : String
  pub uuid : String
  pub payload : List ℕ
  pub metadata : Metadata

-- messageEnvelope.validate
unfoldable pub validate : MessageEnvelope → Option Err
validate e = if e.destination_topic == "" then some (Err.new "unknown destination topic") else none

checked : Option Err → MessageEnvelope → Result MessageEnvelope
checked none e = Result.ok e
checked (some err) e = Result.fail (Err.wrap err "cannot create a message envelope")

-- newMessageEnvelope
unfoldable pub new_message_envelope : String → Message → Result MessageEnvelope
unfolding checked validate
new_message_envelope dest_topic m =
    let e : MessageEnvelope = record {
      destination_topic = dest_topic;
      uuid = m.uuid;
      payload = m.payload;
      metadata = m.metadata;
    } in
    checked (validate e) e

with_bytes : String → Message → Result (List ℕ) → Result Message
unfolding new_message set_context context_of
with_bytes uuid m (Result.fail err) = Result.fail (Err.wrap err "cannot marshal a message")
with_bytes uuid m (Result.ok bytes) =
    Result.ok (set_context (context_of m) (new_message uuid bytes))

-- the topic, and the message of an envelope that has been read
taken_out : Message → MessageEnvelope → Option Err → Result (String × Message)
unfolding new_message set_context context_of
taken_out m e (some err) = Result.fail (Err.wrap err "an unmarshalled message envelope is invalid")
taken_out m e none = Result.ok (
  e.destination_topic,
  set_context (context_of m) (record (new_message e.uuid e.payload) { metadata = e.metadata }),
)

opened : Message → Result MessageEnvelope → Result (String × Message)
unfolding validate taken_out
opened m (Result.fail err) =
    Result.fail (Err.wrap err "cannot unmarshal message wrapped in an envelope")
opened m (Result.ok e) = taken_out m e (validate e)

unfoldable pub and_rest : ℕ → Result (List ℕ) → Result (List ℕ)
and_rest p (Result.fail err) = Result.fail err
and_rest p (Result.ok ps) = Result.ok (p ∷ ps)

abbrev pub wrapped_error : String → Option Err → Option Err
wrapped_error text none = none
wrapped_error text (some err) = some (Err.wrap err text)

module _ (marshal : MessageEnvelope → Result (List ℕ)) where
  enveloped : String → Message → Result MessageEnvelope → Result Message
  unfolding with_bytes
  enveloped uuid m (Result.fail err) = Result.fail (Err.wrap err "cannot envelope a message")
  enveloped uuid m (Result.ok e) = with_bytes uuid m (marshal e)

  -- wrapMessageInEnvelope, where `uuid` is that of NewUUID
  unfoldable pub wrap_message_in_envelope : String → String → Message → Result Message
  unfolding enveloped new_message_envelope
  wrap_message_in_envelope uuid destination_topic m =
      enveloped uuid m (new_message_envelope destination_topic m)

module _ (unmarshal : List ℕ → Result MessageEnvelope) where
  -- unwrapMessageFromEnvelope
  unfoldable pub unwrap_message_from_envelope : Message → Result (String × Message)
  unfolding opened
  unwrap_message_from_envelope m = opened m (unmarshal m.payload)

module _ {S : Type 0} (marshal : MessageEnvelope → Result (List ℕ)) where
  allocated : Result Message → M S (Result ℕ)
  unfolding alloc
  allocated (Result.fail err) = pure (Result.fail err)
  allocated (Result.ok m) = do p ← alloc m; pure (Result.ok p)

  -- one turn of the loop of Publisher.Publish
  unfoldable pub envelop : M S String → String → ℕ → M S (Result ℕ)
  unfolding allocated wrap_message_in_envelope read
  envelop new_uuid topic msg = do
    uuid ← new_uuid
    wrapped ← read msg (wrap_message_in_envelope marshal uuid topic)
    allocated wrapped

  go_on : Result ℕ → M S (Result (List ℕ)) → M S (Result (List ℕ))
  unfolding and_rest
  go_on (Result.fail err) rest = pure (Result.fail (Err.wrap err "cannot wrap message"))
  go_on (Result.ok p) rest = do ps ← rest; pure (and_rest p ps)

  -- the loop of Publisher.Publish
  unfoldable pub enveloped_messages : M S String → String → List ℕ → M S (Result (List ℕ))
  unfolding envelop go_on
  enveloped_messages new_uuid topic [] = pure (Result.ok [])
  enveloped_messages new_uuid topic (msg ∷ msgs) = do
    p ← envelop new_uuid topic msg
    go_on p (enveloped_messages new_uuid topic msgs)

  publish_enveloped : Publisher S → String → Result (List ℕ) → M S (Option Err)
  publish_enveloped inner forwarder_topic (Result.fail err) = pure (some err)
  publish_enveloped inner forwarder_topic (Result.ok ps) = do
    err ← inner.publish forwarder_topic ps
    pure (wrapped_error "cannot publish messages to forwarder topic" err)

  -- Publisher, with setDefaults of its configuration
  unfoldable pub new_publisher : M S String → Publisher S → String → Publisher S
  unfolding enveloped_messages publish_enveloped
  new_publisher new_uuid inner configured_topic =
      let forwarder_topic =
        if configured_topic == "" then default_forwarder_topic else configured_topic in
      record {
        name = "forwarder.Publisher";
        publish = λ topic messages. (do
          ps ← enveloped_messages new_uuid topic messages
          publish_enveloped inner forwarder_topic ps);
        close = inner.close;
      }

module _ {S : Type 0} where
  abbrev pub forward : Bool → Publisher S → Result (String × Message) → M S (Option Err)
  forward ack_when_cannot_unwrap out (Result.fail err) =
      if ack_when_cannot_unwrap
      then pure none
      else pure (some (Err.wrap err "cannot unwrap message from an envelope"))
  forward ack_when_cannot_unwrap out (Result.ok (dest_topic, unwrapped)) = do
    p ← alloc unwrapped
    err ← out.publish dest_topic (p ∷ [])
    pure (wrapped_error "cannot publish a message" err)

module _ {S : Type 0} (unmarshal : List ℕ → Result MessageEnvelope) where
  -- Forwarder.forwardMessage
  unfoldable pub forward_message : Bool → Publisher S → NoPublishHandlerFunc S
  unfolding read unwrap_message_from_envelope
  forward_message ack_when_cannot_unwrap out msg = do
    unwrapped ← read msg (unwrap_message_from_envelope unmarshal)
    forward ack_when_cannot_unwrap out unwrapped
