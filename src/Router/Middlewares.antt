-- ===== src/Router/Middlewares.antt =====
-- The order in which `run` wraps a handler function in the middlewares.
use watermill.Prelude.{
  Bool-cases, inl, inr, String, if◌then◌else◌, List, [], ◌∷◌, ◌++◌, keep, ◌≡◌, refl, ap, ◌∙◌,
}
use mathlib.Core.List.{reverse, foldr, reverse-append}
use watermill.PubSub.{HandlerFunc}
use watermill.Router.Defs.{Middleware}
use watermill.Router.Handling.{applies, wrap_loop, middleware_handler}

module _ {S : Type 0} (name : String) where
  wrap_loop-append :
      (xs ys : List (Middleware S)) (h : HandlerFunc S)
      → wrap_loop name (xs ++ ys) h ≡ wrap_loop name ys (wrap_loop name xs h)
  unfolding wrap_loop
  wrap_loop-append [] ys h = refl
  wrap_loop-append (x ∷ xs) ys h =
      wrap_loop-append xs ys (if applies name x then x.handler h else h)

  middleware_handler_step :
      (m : Middleware S) (ms : List (Middleware S)) (h : HandlerFunc S)
      → middleware_handler name (m ∷ ms) h ≡ (
          if applies name m
          then m.handler (middleware_handler name ms h)
          else middleware_handler name ms h)
  unfolding middleware_handler wrap_loop
  middleware_handler_step m ms h =
      ap (λ l. wrap_loop name l h) (reverse-append (m ∷ []) ms)
      ∙ wrap_loop-append (reverse ms) (m ∷ []) h

  -- The middlewares that apply to the handler are those of the router and those that were added
  -- for its name. They are wrapped around the handler function in the order in which they were
  -- added, the first outermost, so the first is executed first; the others leave no trace.
  pub middleware_handler_order :
      (ms : List (Middleware S)) (h : HandlerFunc S)
      → middleware_handler name ms h ≡ foldr (λ m inner. m.handler inner) h (keep (applies name) ms)
  middleware_handler_order [] h = unfold middleware_handler wrap_loop in refl
  middleware_handler_order (m ∷ ms) h =
      middleware_handler_step m ms h ∙ (elim (Bool-cases (applies name m)) [
        | inl e ↦ rw e (ap m.handler (middleware_handler_order ms h))
        | inr e ↦ rw e (middleware_handler_order ms h)
      ])
