-- ===== src/Examples/Forwarders.antt =====
-- The theorems on components at concrete messages.
use native.Mathlib.Decide.{ℕ_discrete}
use watermill.Prelude.{
  ◌≢◌, ℕ, ◌+◌, pos, String, Bool, true, false, none, some, List, [], ◌∷◌, ◌≡◌, refl, arith,
  if◌then◌else◌, ltb, ap, sym, false≢true, ◌==◌, eq_iff, Bool-cases, inl, inr,
}
use watermill.Go.{Err, Outcome, Result, pure, Context, CtxKey, CtxValue, ctx_value, CtxKey-discrete}
use watermill.Runtime.{World, M, get_metadata, set_metadata, message_context, read}
use watermill.PubSub.{Publisher}
use watermill.Components.Forwarder.{
  MessageEnvelope, wrap_message_in_envelope, unwrap_message_from_envelope, forward_message,
}
use watermill.Components.Forwarding.{
  ReadsBack, envelope_of, delivered, wrapped, with_message, unwrap-wrap, forward_message_delivers,
}
use watermill.Components.RetryPublisher.{RetryPublisher, send}
use watermill.Components.Retrying.{Failing, send_succeeds, send_gives_up}
use watermill.Components.Delaying.{PublisherConfig, apply_delay, set_delay}
use watermill.Components.DelayedOnly.{delay_text, apply_delay_sets}
use watermill.Examples.Data.{Log, plain, world, log, recorder, unlike}

string_discrete : Discrete String
string_discrete s t = elim (Bool-cases (s == t)) [
  | inl e ↦ yes ((eq_iff s t).0 e)
  | inr e ↦ no (unlike s t e)
]

envelope_discrete : Discrete MessageEnvelope
envelope_discrete = hlevel (ℕ_discrete, string_discrete)

abbrev envelope : MessageEnvelope
envelope = envelope_of "t" plain

-- a JSON that writes one envelope, and reads it
abbrev written_if : {e : MessageEnvelope} → Dec (e ≡ envelope) → Result (List ℕ)
written_if (yes p) = Result.ok (0 ∷ [])
written_if (no q) = Result.fail (Err.new "unknown")

marshal : MessageEnvelope → Result (List ℕ)
unfolding envelope_discrete
marshal e = written_if (envelope_discrete e envelope)

abbrev unmarshal : List ℕ → Result MessageEnvelope
unmarshal bytes = Result.ok envelope

is_ok : Result (List ℕ) → Bool
is_ok (Result.ok bytes) = true
is_ok (Result.fail err) = false

written_if-ReadsBack :
    (e : MessageEnvelope) (d : Dec (e ≡ envelope)) (bytes : List ℕ)
    → written_if d ≡ Result.ok bytes
    → unmarshal bytes ≡ Result.ok e
unfolding is_ok
written_if-ReadsBack e (yes p) bytes h = ap Result.ok (sym p)
written_if-ReadsBack e (no q) bytes h = absurd (false≢true (ap is_ok h))

marshal-ReadsBack : ReadsBack marshal unmarshal
unfolding marshal
marshal-ReadsBack e bytes h = written_if-ReadsBack e (envelope_discrete e envelope) bytes h

written_if-envelope : (d : Dec (envelope ≡ envelope)) → written_if d ≡ Result.ok (0 ∷ [])
written_if-envelope (yes p) = refl
written_if-envelope (no q) = absurd (q refl)

marshal-envelope : marshal envelope ≡ Result.ok (0 ∷ [])
unfolding marshal
marshal-envelope = written_if-envelope (envelope_discrete envelope envelope)

unwrap-wrap_example :
    (wrap_message_in_envelope marshal "u" "t" plain ≡ Result.ok (wrapped "u" (0 ∷ []) plain))
    × (unwrap_message_from_envelope unmarshal (wrapped "u" (0 ∷ []) plain)
        ≡ Result.ok ("t", delivered plain))
unwrap-wrap_example =
    unwrap-wrap marshal unmarshal "u" "t" (0 ∷ []) plain marshal-ReadsBack (unlike "t" "" refl)
      marshal-envelope

abbrev carrying : World Log
carrying = record world { cells = λ _. wrapped "u" (0 ∷ []) plain }

forward_message_delivers_example : forward_message unmarshal false recorder 0 carrying ≡ (
  Outcome.done none,
  log "t" (5 ∷ []) (with_message marshal unmarshal recorder false (delivered plain) carrying),
)
forward_message_delivers_example =
    forward_message_delivers marshal unmarshal recorder false "u" "t" (0 ∷ []) plain 0 none carrying
      (log "t" (5 ∷ []) (with_message marshal unmarshal recorder false (delivered plain) carrying))
      marshal-ReadsBack (unlike "t" "" refl) marshal-envelope refl refl

abbrev unreadable : List ℕ → Result MessageEnvelope
unreadable bytes = Result.fail (Err.new "unexpected end of JSON input")

-- a publisher that fails as long as less than a number of attempts have been made
abbrev flaky : ℕ → Publisher ℕ
flaky fails = record {
  name = "flaky";
  publish = λ topic ms w. (
    Outcome.done (if ltb w.env fails then some (Err.new "down") else none),
    record w { env = w.env + 1 },
  );
  close = pure none;
}

abbrev no_sleep : ℕ → M ℕ (Unit {0})
no_sleep t = pure tt

abbrev retrying : RetryPublisher ℕ
retrying = record {
  publisher = flaky 1;
  config = record { max_retries = pos 2; time_to_first_retry = pos 1000 };
}

abbrev attempts : ℕ → World ℕ
attempts n = record {
  cells = λ _. plain;
  next = 5;
  cancelled = λ _. none;
  next_context = 0;
  running_handlers = 0;
  env = n;
}

one_failure :
    Failing no_sleep
      (flaky 1)
      "t"
      0
      1
      1000
      none
      (attempts 0)
      2000
      (some (Err.new "down"))
      (attempts 1)
one_failure =
    Failing.attempt 0 1000 2000 none (some (Err.new "down")) (Err.new "down") (attempts 0)
      (attempts 1) (attempts 1) (attempts 1) refl refl
      (Failing.no_attempt 2000 (some (Err.new "down")) (attempts 1))

send_succeeds_example : send no_sleep retrying "t" 0 (attempts 0) ≡ (Outcome.done none, attempts 2)
send_succeeds_example =
    send_succeeds no_sleep retrying "t" 0 1 2 2000 (some (Err.new "down")) (attempts 0) (attempts 1)
      (attempts 2) refl (ground arith) one_failure refl

abbrev hopeless : RetryPublisher ℕ
hopeless = record {
  publisher = flaky 1;
  config = record { max_retries = pos 1; time_to_first_retry = pos 1000 };
}

send_gives_up_example :
    send no_sleep hopeless "t" 0 (attempts 0) ≡ (Outcome.done (some (Err.new "down")), attempts 1)
send_gives_up_example =
    send_gives_up no_sleep hopeless "t" 0 1 2000 (some (Err.new "down")) (attempts 0) (attempts 1)
      refl one_failure

-- a message whose context says how long it is delayed
abbrev postponed : World Log
postponed = record world {
  cells = λ _. record plain {
    ctx = some (
        Context.with_value CtxKey.delay (CtxValue.delay_of (record { time = 9; duration = pos 5 }))
          Context.background);
  };
}

abbrev strict : PublisherConfig Log
strict = record { default_delay_generator = none; allow_no_delay = false }

abbrev as_text : {A : Type 0} → A → String
as_text a = "5ns"

apply_delay_sets_example : delay_text 0 (apply_delay as_text as_text strict "t" 0 postponed).1 ≢ ""
unfolding apply_delay get_metadata message_context read ctx_value set_delay CtxKey-discrete
    set_metadata
apply_delay_sets_example =
    apply_delay_sets as_text as_text strict "t" 0 postponed
      (apply_delay as_text as_text strict "t" 0 postponed).1 (λ d. unlike "5ns" "" refl) refl refl
