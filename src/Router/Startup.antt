-- ===== src/Router/Startup.antt =====
-- What RunHandlers does to the handlers, and what a second call does.
use watermill.Prelude.{
  String, true, false, Bool-cases, inl, inr, Option, none, some, List, [], ◌∷◌, All, ◌≡◌, refl, sym,
  ap, subst, ◌∙◌, arith, lookup,
}
use watermill.Go.{Err, Outcome, Go, Context, ◌>>=◌}
use watermill.Router.Defs.{Handler}
use watermill.Router.Running.{
  RunState, start_unless, run_found, run_handler, or_next, run_each, run_handlers,
}
use watermill.Router.HandlerStart.{
  IsStarted, StartedIn, IsNamed, StartsAt-run_handler, IsNamed-run_handler, StartedIn-run_handler,
}

-- What the loop of RunHandlers has done if it returned no error.
record StartsAll {S : Type 0} (order : List String) (s : RunState S) (t : RunState S) : Type 0 where
  all : All (StartedIn t) order
  still : (k : String) → StartedIn s k → StartedIn t k
  running : t.router.is_running ≡ s.router.is_running

module _ {S : Type 0} (m next : Go (RunState S) (Option Err)) (s : RunState S) where
  or_next-done :
      ((m >>= λ err. or_next err next) s).0 ≡ Outcome.done none → (m s).0 ≡ Outcome.done none
  unfolding or_next
  or_next-done h = ground arith

  or_next-next : (m s).0 ≡ Outcome.done none → (m >>= λ err. or_next err next) s ≡ next (m s).1
  unfolding or_next
  or_next-next h = rw h refl

module _ {S : Type 0} (ctx : Context) where
  run_each_starts :
      (order : List String) (s : RunState S)
      → IsNamed s.router
      → (run_each ctx order s).0 ≡ Outcome.done none
      → StartsAll order s (run_each ctx order s).1
  unfolding run_each
  run_each_starts [] s v p = record { all = tt; still = λ k h. h; running = refl }
  run_each_starts (name ∷ order) s v p =
      let next = run_each ctx order in
      let first = or_next-done (run_handler ctx name) next s p in
      let e = or_next-next (run_handler ctx name) next s first in
      let one = StartsAt-run_handler name ctx s v in
      let rest =
        run_each_starts order (run_handler ctx name s).1 (IsNamed-run_handler name ctx s v)
          (sym (ap (λ t. t.0) e) ∙ p) in
      subst (λ t. StartsAll (name ∷ order) s t.1) (sym e)
        (record {
          all = (rest.still name (one.starts first), rest.all);
          still = λ k h. rest.still k (StartedIn-run_handler name ctx s v first k h);
          running = rest.running ∙ one.running;
        })

  -- A handler that has started is passed over.
  run_handler-started :
      (name : String) (s : RunState S)
      → StartedIn s name
      → run_handler ctx name s ≡ (Outcome.done none, s)
  unfolding run_handler
  run_handler-started name s h = run_found-started (lookup name s.router.handlers) h
    where
      run_found-started :
          (found : Option (Handler S))
          → IsStarted found
          → run_found ctx found s ≡ (Outcome.done none, s)
      run_found-started none h = unfold run_found in refl
      run_found-started (some g) h = unfold run_found in rw h (unfold start_unless in refl)

  run_each-started :
      (order : List String) (s : RunState S)
      → All (StartedIn s) order
      → run_each ctx order s ≡ (Outcome.done none, s)
  unfolding run_each
  run_each-started [] s h = refl
  run_each-started (name ∷ order) s (h, hs) =
      let e = run_handler-started name s h in
      or_next-next (run_handler ctx name) (run_each ctx order) s (ap (λ t. t.0) e)
      ∙ ap (λ t. run_each ctx order t.1) e
      ∙ run_each-started order s hs

  run_handlers_on :
      (order : List String) (s : RunState S)
      → s.router.is_running ≡ true
      → run_handlers ctx order s ≡ run_each ctx order s
  unfolding run_handlers
  run_handlers_on order s h = simp h

  run_handlers-run_each :
      (order : List String) (s t : RunState S)
      → run_handlers ctx order s ≡ (Outcome.done none, t)
      → (s.router.is_running ≡ true) × (run_each ctx order s ≡ (Outcome.done none, t))
  unfolding run_handlers
  run_handlers-run_each order s t h = elim (Bool-cases s.router.is_running) [
    | inl on ↦ (on, sym (run_handlers_on order s on) ∙ h)
    | inr off ↦ absurd (ground arith)
  ]

  run_handlers-StartsAll :
      (order : List String) (s t : RunState S)
      → IsNamed s.router
      → run_handlers ctx order s ≡ (Outcome.done none, t)
      → StartsAll order s t
  run_handlers-StartsAll order s t v h =
      let e = (run_handlers-run_each order s t h).1 in
      subst (StartsAll order s) (ap (λ x. x.1) e) (run_each_starts order s v (ap (λ x. x.0) e))

-- In a router whose handlers stand under their names, if RunHandlers returns no error, every
-- handler that it went through has started; and it is idempotent: calling it again for them, with
-- any context, returns no error and changes neither the router nor the world.
pub run_handlers_idempotent :
    {S : Type 0} (ctx ctx' : Context) (order : List String) (s t : RunState S)
    → IsNamed s.router
    → run_handlers ctx order s ≡ (Outcome.done none, t)
    → All (StartedIn t) order × (run_handlers ctx' order t ≡ (Outcome.done none, t))
run_handlers_idempotent ctx ctx' order s t v h =
    let k = run_handlers-StartsAll ctx order s t v h in
    let on = k.running ∙ (run_handlers-run_each ctx order s t h).0 in
    (k.all, run_handlers_on ctx' order t on ∙ run_each-started ctx' order t k.all)

-- Before Run, RunHandlers refuses and changes nothing.
run_handlers_not_running :
    {S : Type 0} (ctx : Context) (order : List String) (s : RunState S)
    → s.router.is_running ≡ false
    → run_handlers ctx order s
      ≡ (Outcome.done (some (Err.new "you can't call RunHandlers on non-running router")), s)
unfolding run_handlers
run_handlers_not_running ctx order s h = rw h refl
