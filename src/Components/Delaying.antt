-- ===== src/Components/Delaying.antt =====
-- components/delay (delay.go, publisher.go) and message/router/middleware/delay_on_error.go. The texts
-- of instants and durations, and the clock, are parameters; the clock reads the same within one call.
use watermill.Prelude.{
  ℕ, suc, ◌+◌, ◌-◌, int64, negsuc, pos, ℤ, ◌*ℤ◌, ltb_ℤ, sub_ℕ, String, Bool, not, ◌==◌,
  if◌then◌else◌, Option, none, some, List, [], ◌∷◌,
}
use watermill.Go.{
  Err, Result, Delay, Context, CtxKey, CtxValue, ctx_value, pure, ◌>>=◌, ◌>>◌, PanicValue, panic,
}
use watermill.Runtime.{M, set_metadata, get_metadata, message_context}
use watermill.PubSub.{Publisher, HandlerMiddleware}

abbrev pub delayed_until_key : String
delayed_until_key = "_watermill_delayed_until"

abbrev pub delayed_for_key : String
delayed_for_key = "_watermill_delayed_for"

abbrev pub after : ℕ → ℤ → ℕ
after now (pos n) = now + n
after now (negsuc n) = now - suc n

-- For, Until
unfoldable pub delay_for : ℕ → ℤ → Delay
delay_for now delayed_for = record { time = after now delayed_for; duration = delayed_for }

unfoldable pub delay_until : ℕ → ℕ → Delay
delay_until now delayed_until = record { time = delayed_until; duration = sub_ℕ delayed_until now }

-- WithContext
unfoldable pub with_delay : Context → Delay → Context
with_delay ctx delay = Context.with_value CtxKey.delay (CtxValue.delay_of delay) ctx

-- struct PublisherConfig
pub record PublisherConfig (S : Type 0) : Type 0 where
  pub default_delay_generator : Option (String → ℕ → M S (Result Delay))
  pub allow_no_delay : Bool

module _ {S : Type 0} (format_time : ℕ → String) (format_duration : ℤ → String) where
  -- Message
  unfoldable pub set_delay : ℕ → Delay → M S (Unit {0})
  set_delay msg delay = do
    set_metadata msg delayed_until_key (format_time delay.time)
    set_metadata msg delayed_for_key (format_duration delay.duration)

  abbrev pub apply_generated : ℕ → Result Delay → M S (Option Err)
  apply_generated msg (Result.fail err) = pure (some err)
  apply_generated msg (Result.ok delay) = do set_delay msg delay; pure none

  abbrev pub apply_default :
      PublisherConfig S → String → ℕ → Option (String → ℕ → M S (Result Delay)) → M S (Option Err)
  apply_default config topic msg (some generator) = do
    delay ← generator topic msg
    apply_generated msg delay
  apply_default config topic msg none =
      if not config.allow_no_delay
      then pure (some (Err.new "message doesn't have a delay set"))
      else pure none

  -- the context's value under the key of WithContext, which is a Delay
  abbrev pub apply_from_context :
      PublisherConfig S → String → ℕ → Option CtxValue → M S (Option Err)
  apply_from_context config topic msg none =
      apply_default config topic msg config.default_delay_generator
  apply_from_context config topic msg (some (CtxValue.delay_of delay)) = do
    set_delay msg delay
    pure none
  apply_from_context config topic msg (some _) =
      panic (PanicValue.text "interface conversion: interface {} is not delay.Delay")

  abbrev pub unset_delay : PublisherConfig S → String → ℕ → M S (Option Err)
  unset_delay config topic msg = do
    ctx ← message_context msg
    apply_from_context config topic msg (ctx_value ctx CtxKey.delay)

  -- publisher.applyDelay
  unfoldable pub apply_delay : PublisherConfig S → String → ℕ → M S (Option Err)
  unfolding get_metadata message_context
  apply_delay config topic msg = do
    delayed_for ← get_metadata msg delayed_for_key
    if not (delayed_for == "") then pure none else unset_delay config topic msg

  abbrev pub unless_error : Option Err → M S (Option Err) → M S (Option Err)
  unless_error none rest = rest
  unless_error (some err) rest = pure (some err)

  -- the loop of publisher.Publish
  unfoldable pub apply_delays : PublisherConfig S → String → List ℕ → M S (Option Err)
  apply_delays config topic [] = pure none
  apply_delays config topic (msg ∷ msgs) = do
    err ← apply_delay config topic msg
    unless_error err (apply_delays config topic msgs)

  -- NewPublisher, publisher
  unfoldable pub new_publisher : Publisher S → PublisherConfig S → Publisher S
  new_publisher p config = record {
    name = "delay.publisher";
    publish = λ topic messages. (do
      err ← apply_delays config topic messages
      unless_error err (p.publish topic messages));
    close = p.close;
  }

-- struct DelayOnError; `multiplier` is the whole part of the field, which is all that
-- `time.Duration(d.Multiplier)` keeps of it
pub record DelayOnError : Type 0 where
  pub initial_interval : ℤ
  pub max_interval : ℤ
  pub multiplier : ℤ

-- the next delay, from what ParseDuration says of the one before; a text that is not a duration, also
-- the empty one, is no delay
unfoldable pub next_delay : DelayOnError → Option ℤ → ℤ
unfolding ◌*ℤ◌ int64
next_delay d none = d.initial_interval
next_delay d (some delayed_for) =
    let longer = int64 (delayed_for *ℤ d.multiplier) in
    if ltb_ℤ d.max_interval longer then d.max_interval else longer

module _ {S : Type 0} (format_time : ℕ → String) (format_duration : ℤ → String)
    (parse_duration : String → Option ℤ) (clock : M S ℕ) where
  -- DelayOnError.applyDelay
  unfoldable pub delay_again : DelayOnError → ℕ → M S (Unit {0})
  delay_again d msg = do
    delayed_for ← get_metadata msg delayed_for_key
    now ← clock
    set_delay format_time format_duration msg (
        delay_for now
          (next_delay d (if delayed_for == "" then none else parse_duration delayed_for)))

  abbrev pub delay_if_error : DelayOnError → ℕ → List ℕ × Option Err → M S (List ℕ × Option Err)
  delay_if_error d msg (msgs, none) = pure (msgs, none)
  delay_if_error d msg (msgs, some err) = do delay_again d msg; pure (msgs, some err)

  -- DelayOnError.Middleware
  unfoldable pub delay_on_error : DelayOnError → HandlerMiddleware S
  delay_on_error d h msg = do out ← h msg; delay_if_error d msg out
