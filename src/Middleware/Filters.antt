-- ===== src/Middleware/Filters.antt =====
-- message/router/middleware/ignore_errors.go: which errors are dropped.
use watermill.Prelude.{
  ℕ, String, Bool, true, false, ◌==◌, ◌||◌, if◌then◌else◌, Option, none, some, List, [], ◌∷◌, Map,
  lookup, insert, lookup-insert, ◌≡◌, refl, ap, ◌∙◌, arith,
}
use watermill.Go.{Err, Outcome, pure, >>=-done}
use watermill.Runtime.{World}
use watermill.PubSub.{HandlerFunc}
use watermill.Middleware.Poison.{new_ignore_errors, ignore_errors, after_ignoring, ignored}

-- the errors of the list have a text
abbrev pub is_listed : (Err → String) → String → List Err → Bool
is_listed error_text s [] = false
is_listed error_text s (err ∷ errs) = (error_text err == s) || is_listed error_text s errs

or_false : (b : Bool) → (b || false) ≡ b
or_false true = refl
or_false false = refl

module _ (error_text : Err → String) (cause : Err → Err) where
  abbrev is_there : Option (Unit {0}) → Bool
  is_there (some _) = true
  is_there none = false

  new_ignore_errors-lookup :
      (s : String) (errs : List Err) (m : Map (Unit {0}))
      → is_there (lookup s (new_ignore_errors error_text cause errs m))
        ≡ (is_listed error_text s errs || is_there (lookup s m))
  unfolding new_ignore_errors
  new_ignore_errors-lookup s [] m = refl
  new_ignore_errors-lookup s (err ∷ errs) m = ground (
    arith,
    new_ignore_errors-lookup s errs (insert (error_text err) tt m),
    lookup-insert (error_text err) s tt m,
  )

  ignored-is_there :
      (produced : List ℕ) (err : Err) (o : Option (Unit {0}))
      → ignored error_text cause produced err o ≡ (produced, if is_there o then none else some err)
  ignored-is_there produced err none = refl
  ignored-is_there produced err (some _) = refl

  -- IgnoreErrors, made for a list of errors: an error of the handler function is dropped exactly if the
  -- text of its cause is that of an error of the list; the produced messages stay in both cases.
  pub ignore_errors_lem :
      {S : Type 0} (errs : List Err) (h : HandlerFunc S) (msg : ℕ) (produced : List ℕ) (err : Err)
      (w w' : World S)
      → h msg w ≡ (Outcome.done (produced, some err), w')
      → ignore_errors error_text cause (new_ignore_errors error_text cause errs []) h msg w ≡ (
        Outcome.done (
          produced,
          if is_listed error_text (error_text (cause err)) errs then none else some err,
        ),
        w',
      )
  unfolding ignore_errors lookup
  ignore_errors_lem errs h msg produced err w w' e =
      let listed = new_ignore_errors error_text cause errs [] in
      let at_end = new_ignore_errors-lookup (error_text (cause err)) errs [] in
      >>=-done (h msg) (λ out. pure (after_ignoring error_text cause listed out)) e
      ∙ ap (λ x. (Outcome.done x, w'))
          (ignored-is_there produced err (lookup (error_text (cause err)) listed)
            ∙ ap (λ b. (produced, if b then none else some err))
                (at_end ∙ or_false (is_listed error_text (error_text (cause err)) errs)))
