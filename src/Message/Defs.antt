-- ===== src/Message/Defs.antt =====
-- message/message.go: the message and its constructors.
use watermill.Prelude.{ℕ, String, Option, none, some, List, [], ◌∷◌}
use watermill.Go.{Chan, Context}
use watermill.Message.Headers.{Metadata}

pub data AckType : Type 0 where
  no_ack_sent ack nack : AckType

-- The payload is a list of bytes. `none` as a context is the nil context.
pub record Message : Type 0 where
  pub uuid : String
  pub metadata : Metadata
  pub payload : List ℕ
  pub ack : Chan
  pub no_ack : Chan
  pub ack_sent_type : AckType
  pub ctx : Option Context

-- NewMessage
unfoldable pub new_message : String → List ℕ → Message
new_message uuid payload = record {
  uuid = uuid;
  metadata = some [];
  payload = payload;
  ack = Chan.open_chan;
  no_ack = Chan.open_chan;
  ack_sent_type = AckType.no_ack_sent;
  ctx = none;
}

-- SetContext
unfoldable pub set_context : Context → Message → Message
set_context ctx m = record m { ctx = some ctx }

-- NewMessageWithContext
unfoldable pub new_message_with_context : Context → String → List ℕ → Message
unfolding new_message set_context
new_message_with_context ctx uuid payload = set_context ctx (new_message uuid payload)

abbrev or_background : Option Context → Context
or_background none = Context.background
or_background (some ctx) = ctx

-- Context
unfoldable pub context_of : Message → Context
context_of m = or_background m.ctx

-- Messages.IDs (message/messages.go)
unfoldable pub ids : List Message → List String
ids [] = []
ids (m ∷ ms) = m.uuid ∷ ids ms
