-- ===== src/Examples/Data.antt =====
-- A world that records what is published, and what stands in it.
use watermill.Prelude.{
  ℕ, String, Option, none, some, List, [], ◌∷◌, ◌≡◌, ◌≢◌, false≢true, ◌==◌, ◌∙◌, eq_iff, ap, sym,
  Bool, true, false,
}
use watermill.Go.{Err, Outcome, Result, Chan, pure}
use watermill.Message.Defs.{Message, AckType}
use watermill.Runtime.{World}
use watermill.PubSub.{Publisher, Subscriber, HandlerFunc}
use watermill.Router.Defs.{Handler}

abbrev pub Log : Type 0
Log = List (String × List ℕ)

abbrev pub plain : Message
plain = record {
  uuid = "one";
  metadata = some [];
  payload = 1 ∷ 2 ∷ [];
  ack = Chan.open_chan;
  no_ack = Chan.open_chan;
  ack_sent_type = AckType.no_ack_sent;
  ctx = none;
}

abbrev pub labelled : Message
labelled = record plain { metadata = some (("correlation_id", "c1") ∷ []) }

abbrev pub world : World Log
world = record {
  cells = λ _. plain;
  next = 5;
  cancelled = λ _. none;
  next_context = 0;
  running_handlers = 1;
  env = [];
}

abbrev pub log : String → List ℕ → World Log → World Log
log topic ms w = record w { env = (topic, ms) ∷ w.env }

abbrev pub recorder : Publisher Log
recorder = record {
  name = "recorder";
  publish = λ topic ms w. (Outcome.done none, log topic ms w);
  close = pure none;
}

abbrev pub silent : Subscriber Log
silent = record {
  name = "silent";
  subscribe = λ ctx topic. pure (Result.ok (record { source = 0; deliver = λ msg. pure tt }));
  close = pure none;
}

abbrev pub produce_one : HandlerFunc Log
produce_one msg = pure (1 ∷ [], none)

abbrev pub failing : HandlerFunc Log
failing msg = pure ([], some (Err.new "failed"))

abbrev pub handler : Handler Log
handler = record {
  name = "h";
  subscriber = silent;
  subscribe_topic = "in";
  subscriber_name = "silent";
  publisher = some recorder;
  publish_topic = "out";
  publisher_name = "recorder";
  handler_func = produce_one;
  messages_ch = none;
  started = false;
  stop_ctx = none;
}

is_closed : Chan → Bool
is_closed Chan.closed_chan = true
is_closed _ = false

pub open≢closed : Chan.open_chan ≢ Chan.closed_chan
unfolding is_closed
open≢closed h = false≢true (ap is_closed h)

is_some {ℓ} : {A : Type ℓ} → Option A → Bool
is_some (some a) = true
is_some none = false

pub some≢none {ℓ} : {A : Type ℓ} {a : A} → some a ≢ none
unfolding is_some
some≢none h = false≢true (ap (λ o. is_some o) (sym h))

pub unlike : (s t : String) → (s == t) ≡ false → s ≢ t
unlike s t e h = false≢true (sym e ∙ (eq_iff s t).1 h)
