-- ===== src/Router/DecoratorOrder.antt =====
-- The order in which RunHandlers applies the decorators of publishers and of subscribers.
use watermill.Prelude.{Option, List, [], ◌∷◌, map, foldl, ◌≡◌, refl, ap}
use mathlib.Core.List.{reverse, foldr, reverse-cons, map-append, foldl-append}
use watermill.Go.{Outcome, Result, pure}
use watermill.Runtime.{World, M}
use watermill.PubSub.{
  Publisher, Subscriber, transform_subscriber, message_transform_subscriber_decorator,
}
use watermill.Router.Defs.{Router, Handler}
use watermill.Router.Handling.{add_context}
use watermill.Router.Decorating.{
  publisher_loop, subscriber_loop, decorate_handler_publisher, decorate_handler_subscriber,
}

-- a decorator that does nothing but wrap
abbrev pub wrapping : {S A : Type 0} → (A → A) → A → M S (Result A)
wrapping f a = pure (Result.ok (f a))

reverse-map {ℓ κ} :
    {A : Type ℓ} {B : Type κ} (f : A → B) (xs : List A) → reverse (map f xs) ≡ map f (reverse xs)
reverse-map f [] = refl
reverse-map f (x ∷ xs) = simp (reverse-cons, reverse-map f xs, map-append)

foldl-reverse {ℓ} :
    {A : Type ℓ} (fs : List (A → A)) (a : A)
    → foldl (λ b f. f b) a (reverse fs) ≡ foldr (λ f b. f b) a fs
foldl-reverse [] a = refl
foldl-reverse (f ∷ fs) a = simp (reverse-cons, foldl-append) (ap f (foldl-reverse fs a))

module _ {S : Type 0} where
  publisher_loop_lem :
      (fs : List (Option (Publisher S) → Option (Publisher S))) (p : Option (Publisher S))
      (w : World S)
      → publisher_loop (map wrapping fs) p w
        ≡ (Outcome.done (Result.ok (foldl (λ q f. f q) p fs)), w)
  unfolding publisher_loop
  publisher_loop_lem [] p w = refl
  publisher_loop_lem (f ∷ fs) p w = publisher_loop_lem fs (f p) w

  subscriber_loop_lem :
      (gs : List (Subscriber S → Subscriber S)) (sub : Subscriber S) (w : World S)
      → subscriber_loop (map wrapping gs) sub w
        ≡ (Outcome.done (Result.ok (foldl (λ q g. g q) sub gs)), w)
  unfolding subscriber_loop
  subscriber_loop_lem [] sub w = refl
  subscriber_loop_lem (g ∷ gs) sub w = subscriber_loop_lem gs (g sub) w

-- With decorators that only wrap, the publisher's first decorator is the outermost and its last
-- one calls the original publisher, while the subscriber is first given the handler's context, and
-- then its first decorator is the innermost.
pub decorators_order :
    {S : Type 0} (r : Router S) (h : Handler S) (w : World S)
    (fs : List (Option (Publisher S) → Option (Publisher S)))
    (gs : List (Subscriber S → Subscriber S))
    → r.publisher_decorators ≡ map wrapping fs
    → r.subscriber_decorators ≡ map wrapping gs
    → (decorate_handler_publisher r h w
        ≡ (Outcome.done (Result.ok (foldr (λ f q. f q) h.publisher fs)), w))
      × (decorate_handler_subscriber r h w ≡ (
        Outcome.done
            (Result.ok (foldl (λ q g. g q) (transform_subscriber (add_context h) h.subscriber) gs)),
        w,
      ))
unfolding decorate_handler_publisher decorate_handler_subscriber
    message_transform_subscriber_decorator
decorators_order r h w fs gs p q = (
  rw (p, decorate_handler_publisher) (simp (reverse-map, publisher_loop_lem, foldl-reverse)),
  rw (q, decorate_handler_subscriber) (subscriber_loop_lem gs _ w),
)
