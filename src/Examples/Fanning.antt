-- ===== src/Examples/Fanning.antt =====
-- The theorem on the fan-in at two topics, and a topic that is listed twice.
use watermill.Prelude.{Bool, true, false, some, [], ◌∷◌, ◌≡◌, refl}
use watermill.Go.{Outcome, Result}
use watermill.Router.Defs.{Router, new_router, add_handler}
use watermill.Components.FanIn.{
  Config, set_defaults, validate, new_fan_in, add_topics, with_topics, unless_invalid, contains,
}
use watermill.Components.FanningIn.{FansIn, new_fan_in_lem}
use watermill.Examples.Data.{Log, recorder, silent, unlike}

abbrev two_topics : Config
two_topics = record { source_topics = "a" ∷ "b" ∷ []; target_topic = "all"; close_timeout = 0 }

new_fan_in_lem_example :
    (r : Router Log) × (new_fan_in (some silent) (some recorder) two_topics
      ≡ Outcome.done (Result.ok r))
    × FansIn silent recorder "all" ("a" ∷ "b" ∷ []) (new_router 30000000000) r
unfolding set_defaults validate contains
new_fan_in_lem_example =
    new_fan_in_lem silent recorder two_topics refl (((unlike "a" "b" refl, tt), (tt, tt)))

abbrev twice : Config
twice = record two_topics { source_topics = "a" ∷ "a" ∷ [] }

panics : {A : Type 0} → Outcome A → Bool
panics (Outcome.done a) = false
panics (Outcome.panics e) = true

twice-panics : panics (new_fan_in (some silent) (some recorder) twice) ≡ true
unfolding panics new_fan_in set_defaults validate contains unless_invalid add_topics with_topics
    add_handler new_router
twice-panics = refl
