-- ===== src/Components/FanIn.antt =====
-- components/fanin/fanin.go. Run, Running and Close are those of its router.
use Prim.Native.String.{◌++◌}
use watermill.Prelude.{
  ℕ, String, Bool, true, false, ◌==◌, ◌=ℕ◌, if◌then◌else◌, Option, none, some, List, [], ◌∷◌,
}
use watermill.Go.{Err, Outcome, Result, Go, pure, ◌>>◌}
use watermill.PubSub.{Publisher, Subscriber, passthrough_handler}
use watermill.Router.Defs.{Router, new_router, add_handler}

pub record Config : Type 0 where
  pub source_topics : List String
  pub target_topic : String
  pub close_timeout : ℕ

-- slices.Contains
unfoldable pub contains : List String → String → Bool
contains [] t = false
contains (s ∷ ss) t = let rest = contains ss t in if s == t then true else rest

-- Config.setDefaults: thirty seconds, in nanoseconds
unfoldable pub set_defaults : Config → Config
set_defaults c = record c {
  close_timeout = if c.close_timeout =ℕ 0 then 30000000000 else c.close_timeout;
}

is_empty : List String → Bool
is_empty [] = true
is_empty (t ∷ ts) = false

-- Config.Validate
unfoldable pub validate : Config → Option Err
unfolding contains is_empty
validate c =
    if is_empty c.source_topics
    then some (Err.new "sourceTopics must not be empty")
    else if contains c.source_topics ""
    then some (Err.new "sourceTopics must not be empty")
    else if c.target_topic == ""
    then some (Err.new "targetTopic must not be empty")
    else if contains c.source_topics c.target_topic
    then some (Err.new "sourceTopics must not contain targetTopic")
    else none

abbrev pub handler_name : String → String
handler_name topic = "fan_in_" ++ topic

module _ {S : Type 0} where
  -- the loop of NewFanIn
  unfoldable pub add_topics :
      Subscriber S → Publisher S → String → List String → Go (Router S) (Unit {0})
  unfolding add_handler passthrough_handler
  add_topics subscriber publisher target [] = pure tt
  add_topics subscriber publisher target (topic ∷ topics) = do
    add_handler (handler_name topic) topic subscriber target (some publisher) passthrough_handler
    add_topics subscriber publisher target topics

  unfoldable pub with_topics : Outcome (Unit {0}) × Router S → Outcome (Result (Router S))
  with_topics (Outcome.done u, r) = Outcome.done (Result.ok r)
  with_topics (Outcome.panics e, r) = Outcome.panics e

  unfoldable pub unless_invalid :
      Subscriber S → Publisher S → Config → Option Err → Outcome (Result (Router S))
  unfolding add_topics with_topics new_router
  unless_invalid subscriber publisher c (some e) = Outcome.done (Result.fail e)
  unless_invalid subscriber publisher c none =
      with_topics (
        add_topics subscriber publisher c.target_topic c.source_topics (new_router c.close_timeout))

  -- NewFanIn, with the router that it makes
  unfoldable pub new_fan_in :
      Option (Subscriber S) → Option (Publisher S) → Config → Outcome (Result (Router S))
  unfolding set_defaults validate unless_invalid
  new_fan_in none publisher c = Outcome.done (Result.fail (Err.new "missing subscriber"))
  new_fan_in (some subscriber) none c = Outcome.done (Result.fail (Err.new "missing publisher"))
  new_fan_in (some subscriber) (some publisher) c =
      unless_invalid subscriber publisher (set_defaults c) (validate (set_defaults c))
