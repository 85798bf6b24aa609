-- ===== src/Go/Contexts.antt =====
-- context.Context: a chain of values and of cancellations over the background context. Whether a
-- cancellation has happened is part of the world (Runtime), under the number that it has here.
use watermill.Prelude.{ℕ, ℤ, String, Option, none, some}
use mathlib.Core.Logic.{ite}
use native.Mathlib.Decide.{ℕ_discrete}

-- delay.Delay; instants and durations are in nanoseconds, a duration in the past is negative
pub record Delay : Type 0 where
  pub time : ℕ
  pub duration : ℤ

pub data CtxKey : Type 0 where
  handler_name publisher_name subscriber_name subscribe_topic publish_topic : CtxKey
  delay original_message : CtxKey
  other : ℕ → CtxKey

keys_discrete : Discrete CtxKey
keys_discrete = hlevel ℕ_discrete

unfoldable pub CtxKey-discrete : Discrete CtxKey
unfolding keys_discrete
CtxKey-discrete = keys_discrete

pub data CtxValue : Type 0 where
  text : String → CtxValue
  delay_of : Delay → CtxValue
  message : ℕ → CtxValue

pub data Context : Type 0 where
  background : Context
  with_value : CtxKey → CtxValue → Context → Context
  with_cancel : ℕ → Context → Context

-- ctx.Value(key)
unfoldable pub ctx_value : Context → CtxKey → Option CtxValue
ctx_value Context.background key = none
ctx_value (Context.with_value k v ctx) key =
    ite (CtxKey-discrete k key) (some v) (ctx_value ctx key)
ctx_value (Context.with_cancel n ctx) key = ctx_value ctx key

-- val, ok := v.(string); "" if it is not
unfoldable pub text_value : Option CtxValue → String
text_value (some (CtxValue.text s)) = s
text_value _ = ""
