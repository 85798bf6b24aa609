-- ===== src/Components/Forwarding.antt =====
-- components/forwarder: from the forwarder's publisher to the topic that a message was meant for.
use watermill.Prelude.{
  ℕ, ◌+◌, String, Bool, true, false, ◌==◌, eq_iff, if◌then◌else◌, Option, none, some, List, [], ◌∷◌,
  ◌≡◌, ◌≢◌, refl, ap, ◌∙◌, inl, inr, Bool-cases,
}
use watermill.Go.{Err, Chan, Outcome, Result, pure, >>=-done}
use watermill.Message.Defs.{Message, AckType, new_message, set_context, context_of}
use watermill.Runtime.{World, update, read, alloc}
use watermill.PubSub.{Publisher}
use watermill.Components.Forwarder.{
  MessageEnvelope, validate, new_message_envelope, wrap_message_in_envelope,
  unwrap_message_from_envelope, wrapped_error, forward, forward_message,
}

-- JSON that has been written is read back as it was.
abbrev pub ReadsBack :
    (MessageEnvelope → Result (List ℕ)) → (List ℕ → Result MessageEnvelope) → Type 0
ReadsBack marshal unmarshal =
    (e : MessageEnvelope) (bytes : List ℕ)
    → marshal e ≡ Result.ok bytes
    → unmarshal bytes ≡ Result.ok e

abbrev pub envelope_of : String → Message → MessageEnvelope
envelope_of topic m = record {
  destination_topic = topic;
  uuid = m.uuid;
  payload = m.payload;
  metadata = m.metadata;
}

-- the message that leaves the forwarder: the content is that of `m`, the settlement is new
abbrev pub delivered : Message → Message
delivered m = record {
  uuid = m.uuid;
  payload = m.payload;
  metadata = m.metadata;
  ack = Chan.open_chan;
  no_ack = Chan.open_chan;
  ack_sent_type = AckType.no_ack_sent;
  ctx = some (context_of m);
}

-- the message that carries the envelope
abbrev pub wrapped : String → List ℕ → Message → Message
wrapped uuid bytes m = record {
  uuid = uuid;
  payload = bytes;
  metadata = some [];
  ack = Chan.open_chan;
  no_ack = Chan.open_chan;
  ack_sent_type = AckType.no_ack_sent;
  ctx = some (context_of m);
}

module _ (marshal : MessageEnvelope → Result (List ℕ)) (unmarshal : List ℕ → Result MessageEnvelope)
    (uuid topic : String) (bytes : List ℕ) (m : Message) where
  wrap_lem :
      topic ≢ ""
      → marshal (envelope_of topic m) ≡ Result.ok bytes
      → wrap_message_in_envelope marshal uuid topic m ≡ Result.ok (wrapped uuid bytes m)
  unfolding wrap_message_in_envelope new_message_envelope validate new_message set_context
  wrap_lem ne w = elim (Bool-cases (topic == "")) [
    | inl e ↦ absurd (ne ((eq_iff topic "").0 e))
    | inr e ↦ rw (e, w) refl
  ]

  unwrap_lem :
      topic ≢ ""
      → unmarshal bytes ≡ Result.ok (envelope_of topic m)
      → unwrap_message_from_envelope unmarshal (wrapped uuid bytes m)
        ≡ Result.ok (topic, delivered m)
  unfolding unwrap_message_from_envelope validate new_message set_context context_of
  unwrap_lem ne r = elim (Bool-cases (topic == "")) [
    | inl e ↦ absurd (ne ((eq_iff topic "").0 e))
    | inr e ↦ rw (r, e) refl
  ]

  -- Where JSON reads back what it wrote: a message that can be written, for a topic that is not empty,
  -- is wrapped without an error, and unwrapping the wrapped message gives the topic and a message with
  -- the UUID, the payload, the metadata and the context of the first, and a settlement of its own.
  pub unwrap-wrap :
      ReadsBack marshal unmarshal
      → topic ≢ ""
      → marshal (envelope_of topic m) ≡ Result.ok bytes
      → (wrap_message_in_envelope marshal uuid topic m ≡ Result.ok (wrapped uuid bytes m))
        × (unwrap_message_from_envelope unmarshal (wrapped uuid bytes m)
            ≡ Result.ok (topic, delivered m))
  unwrap-wrap rb ne w = (wrap_lem ne w, unwrap_lem ne (rb (envelope_of topic m) bytes w))

if_pure :
    {S : Type 0} (b : Bool) (x y : Option Err) (w : World S)
    → (if b then pure x else pure y) w ≡ (Outcome.done (if b then x else y), w)
if_pure true x y w = refl
if_pure false x y w = refl

module _ {S : Type 0} (marshal : MessageEnvelope → Result (List ℕ))
    (unmarshal : List ℕ → Result MessageEnvelope) (out : Publisher S)
    (ack_when_cannot_unwrap : Bool) where
  -- the world with one more message
  abbrev pub with_message : Message → World S → World S
  with_message m w = record w { cells = update w.cells w.next m; next = w.next + 1 }

  -- The forwarder gets a message that wraps `m` for a topic, in JSON that reads back as it was
  -- written. Then it publishes one message to that topic, with the content and the context of `m`, and
  -- returns the publisher's error, wrapped, if there is one.
  pub forward_message_delivers :
      (uuid topic : String) (bytes : List ℕ) (m : Message) (msg : ℕ) (err : Option Err)
      (w w' : World S)
      → ReadsBack marshal unmarshal
      → topic ≢ ""
      → marshal (envelope_of topic m) ≡ Result.ok bytes
      → w.cells msg ≡ wrapped uuid bytes m
      → out.publish topic (w.next ∷ []) (with_message (delivered m) w) ≡ (Outcome.done err, w')
      → forward_message unmarshal ack_when_cannot_unwrap out msg w
        ≡ (Outcome.done (wrapped_error "cannot publish a message" err), w')
  unfolding forward_message read alloc
  forward_message_delivers uuid topic bytes m msg err w w' rb ne wr c p =
      let u = (unwrap-wrap marshal unmarshal uuid topic bytes m rb ne wr).1 in
      ap (λ r. forward ack_when_cannot_unwrap out r w)
        (ap (unwrap_message_from_envelope unmarshal) c ∙ u)
      ∙ >>=-done (out.publish topic (w.next ∷ []))
          (λ e. pure (wrapped_error "cannot publish a message" e)) p

  -- A message that holds no envelope, or an envelope without a topic, is never published: it counts as
  -- handled if the forwarder is configured so, and is an error if not.
  forward_message_unreadable :
      (msg : ℕ) (err : Err) (w : World S)
      → unwrap_message_from_envelope unmarshal (w.cells msg) ≡ Result.fail err
      → forward_message unmarshal ack_when_cannot_unwrap out msg w ≡ (
        Outcome.done (
            if ack_when_cannot_unwrap
            then none
            else some (Err.wrap err "cannot unwrap message from an envelope")),
        w,
      )
  unfolding forward_message read
  forward_message_unreadable msg err w u =
      ap (λ r. forward ack_when_cannot_unwrap out r w) u
      ∙ if_pure ack_when_cannot_unwrap none
          (some (Err.wrap err "cannot unwrap message from an envelope")) w
