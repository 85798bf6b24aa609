-- ===== src/Components/FanningIn.antt =====
-- The handlers that NewFanIn registers.
use text.Mathlib.TextLemmas.{append_cancel_left}
use watermill.Prelude.{
  ℕ, ◌+◌, String, eq_iff, eq_refl, none, some, List, [], ◌∷◌, length, All, All-mono, All-apply,
  lookup, insert, lookup-insert, ◌≡◌, ◌≢◌, refl, ap, ◌∙◌, arith,
}
use watermill.Go.{Outcome, Result, >>=-done}
use watermill.PubSub.{Publisher, Subscriber, passthrough_handler}
use watermill.Router.Defs.{Router, Handler, new_router, add_handler, register}
use watermill.Router.Registration.{new_handler}
use watermill.Components.FanIn.{
  Config, set_defaults, validate, handler_name, add_topics, with_topics, unless_invalid, new_fan_in,
}

abbrev pub IsDistinct : List String → Type 0
IsDistinct [] = Unit
IsDistinct (t ∷ ts) = All (λ u. t ≢ u) ts × IsDistinct ts

module _ {S : Type 0} (subscriber : Subscriber S) (publisher : Publisher S) (target : String) where
  abbrev pub fan_in_handler : String → Handler S
  fan_in_handler topic =
      new_handler (handler_name topic) topic subscriber target (some publisher) passthrough_handler

  -- The topics of a list are those of a router, each with its handler.
  pub record FansIn (topics : List String) (r r' : Router S) : Type 0 where
    wg : r'.handlers_wg ≡ r.handlers_wg + length topics
    keeps :
        (k : String) (x : Handler S) → lookup k r.handlers ≡ some x → lookup k r'.handlers ≡ some x
    handlers : All (λ t. lookup (handler_name t) r'.handlers ≡ some (fan_in_handler t)) topics

  abbrev registered : String → Router S → Router S
  registered t r = record r {
    handlers_wg = r.handlers_wg + 1;
    handlers = insert (handler_name t) (fan_in_handler t) r.handlers;
  }

  add_fresh :
      (t : String) (r : Router S)
      → lookup (handler_name t) r.handlers ≡ none
      → add_handler (handler_name t) t subscriber target (some publisher) passthrough_handler r
        ≡ (Outcome.done tt, registered t r)
  unfolding add_handler register
  add_fresh t r fresh = rw fresh refl

  IsFresh : Router S → String → Type 0
  IsFresh r t = lookup (handler_name t) r.handlers ≡ none

  IsFresh-registered :
      (t u : String) (r : Router S) → t ≢ u → IsFresh r u → IsFresh (registered t r) u
  unfolding IsFresh
  IsFresh-registered t u r ne fresh = ground (
    arith,
    lookup-insert (handler_name t) (handler_name u) (fan_in_handler t) r.handlers,
    eq_iff (handler_name t) (handler_name u),
    append_cancel_left "fan_in_" t u,
  )

  add_topics_lem :
      (topics : List String) (r : Router S)
      → IsDistinct topics
      → All (IsFresh r) topics
      → (r' : Router S) × (add_topics subscriber publisher target topics r ≡ (Outcome.done tt, r'))
        × FansIn topics r r'
  unfolding add_topics IsFresh
  add_topics_lem [] r d fresh =
      (r, refl, record { wg = omega arith; keeps = λ k x e. e; handlers = tt })
  add_topics_lem (t ∷ ts) r (ne, d) (fresh, freshes) =
      let (r', e, fans) = add_topics_lem ts (registered t r) d (
        All-apply (IsFresh r) (IsFresh (registered t r)) ts
          (All-mono (λ u. t ≢ u) (λ u. IsFresh r u → IsFresh (registered t r) u) ts
            (λ u. IsFresh-registered t u r) ne)
          freshes) in
      (
        r',
        >>=-done
              (add_handler (handler_name t) t subscriber target (some publisher)
                passthrough_handler)
              (λ _. add_topics subscriber publisher target ts) (add_fresh t r fresh)
            ∙ e,
        record {
          wg = omega (arith, fans.wg);
          keeps = λ k x f. fans.keeps k x (
              ground (
                arith,
                lookup-insert (handler_name t) k (fan_in_handler t) r.handlers,
                eq_iff (handler_name t) k,
                f,
              ));
          handlers = (
            fans.keeps (handler_name t) (fan_in_handler t) (
                ground (
                  arith,
                  lookup-insert (handler_name t) (handler_name t) (fan_in_handler t) r.handlers,
                  eq_refl (handler_name t),
                )),
            fans.handlers,
          );
        },
      )

  new_router-IsFresh : (topics : List String) (n : ℕ) → All (IsFresh (new_router n)) topics
  unfolding IsFresh new_router lookup
  new_router-IsFresh [] n = tt
  new_router-IsFresh (t ∷ ts) n = (refl, new_router-IsFresh ts n)

module _ {S : Type 0} where
  -- With a subscriber, a publisher and a valid configuration whose source topics are distinct, NewFanIn
  -- makes a router whose handlersWg is the number of source topics, and which has, for each of them,
  -- a handler that subscribes to the topic and publishes each message as it is to the target topic.
  pub new_fan_in_lem :
      (subscriber : Subscriber S) (publisher : Publisher S) (c : Config)
      → validate (set_defaults c) ≡ none
      → IsDistinct c.source_topics
      → (r : Router S) × (new_fan_in (some subscriber) (some publisher) c
          ≡ Outcome.done (Result.ok r))
        × FansIn subscriber publisher c.target_topic c.source_topics
            (new_router (set_defaults c).close_timeout)
            r
  unfolding new_fan_in set_defaults with_topics unless_invalid
  new_fan_in_lem subscriber publisher c valid distinct =
      let n = (set_defaults c).close_timeout in
      let (r, e, fans) =
        add_topics_lem subscriber publisher c.target_topic c.source_topics (new_router n) distinct
          (new_router-IsFresh subscriber publisher c.target_topic c.source_topics n) in
      (
        r,
        ap (λ o. unless_invalid subscriber publisher (set_defaults c) o) valid
            ∙ ap (λ t. with_topics t) e,
        fans,
      )
