-- ===== src/Middleware/Guards.antt =====
-- What the middlewares of one run promise whatever the handler function does.
use watermill.Prelude.{
  Bool, true, false, false≢true, ℕ, ◌+◌, Option, none, some, ◌≡◌, ◌≢◌, refl, ap, ◌∙◌, =ℕ_refl, sym,
}
use watermill.Go.{Err, Context}
use watermill.Message.Defs.{context_of, set_context}
use watermill.Runtime.{
  World, update, on_message, read, ctx_err, with_cancel, end_context, cancel, end_context,
  message_context, set_message_context,
}
use watermill.PubSub.{HandlerFunc}
use watermill.Middleware.Basic.{timeout}

abbrev is_none : {A : Type 0} → Option A → Bool
is_none none = true
is_none (some _) = false

some≢none : {A : Type 0} {a : A} → some a ≢ none
some≢none h = absurd (false≢true (ap is_none h))

end_context-ends :
    {S : Type 0} (n : ℕ) (ctx : Context) (w : World S) (o : Option Err)
    → ctx_err w (Context.with_cancel n ctx) ≡ o
    → ctx_err (end_context o n w) (Context.with_cancel n ctx) ≢ none
unfolding ctx_err
end_context-ends n ctx w (some x) e h = some≢none (sym e ∙ h)
end_context-ends n ctx w none e h =
    let p : ctx_err (end_context none n w) (Context.with_cancel n ctx) ≡ some Err.canceled =
      rw (=ℕ_refl n, ctx_err) refl in
    some≢none (sym p ∙ h)

module _ {S : Type 0} (h : HandlerFunc S) (msg : ℕ) (w : World S) where
  -- the context that Timeout gives to the message
  abbrev pub limited : Context
  limited = Context.with_cancel w.next_context (context_of (w.cells msg))

  -- the world in which the handler function of Timeout runs
  abbrev pub limited_world : World S
  limited_world = record w {
    next_context = w.next_context + 1;
    cells = update w.cells msg (set_context limited (w.cells msg));
  }

  -- Timeout calls the handler function on a message whose context is a new one under the message's
  -- own, returns what it returns or panics as it does, and the new context is cancelled then.
  pub timeout_cancels :
      ((timeout h msg w).0 ≡ (h msg limited_world).0) × (ctx_err (timeout h msg w).1 limited ≢ none)
  unfolding timeout message_context read with_cancel set_message_context on_message cancel
  timeout_cancels = (
    refl,
    end_context-ends w.next_context (context_of (w.cells msg)) (h msg limited_world).1
        (ctx_err (h msg limited_world).1 limited) refl,
  )
