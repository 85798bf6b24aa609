-- ===== src/Runtime/Defs.antt =====
-- The world in which handlers run: the messages behind their pointers, the contexts that are
-- cancelled, and the state `S` of everything outside the program (publishers, subscribers, user
-- code). A `*Message` is a number; the program passes no nil message, and every message owns its
-- metadata map. A call runs without interleaving, unless a module says otherwise.
use watermill.Prelude.{ℕ, ◌+◌, ◌-◌, String, ◌=ℕ◌, if◌then◌else◌, Option, none, some, List, [], ◌∷◌}
use watermill.Go.{Err, PanicValue, Outcome, Go, Context, pure, ◌>>=◌, ◌>>◌}
use watermill.Message.Headers
use watermill.Message.Headers.{Metadata}
use watermill.Message.Defs.{Message, context_of, set_context}
use watermill.Message.Ack.{ack, nack}

pub record World (S : Type 0) : Type 0 where
  pub cells : ℕ → Message
  pub next : ℕ
  -- the error of a context's own cancellation, by the context's number
  pub cancelled : ℕ → Option Err
  pub next_context : ℕ
  -- the counter of the router's runningHandlersWg
  pub running_handlers : ℕ
  pub env : S

abbrev pub update {ℓ} : {A : Type ℓ} → (ℕ → A) → ℕ → A → ℕ → A
update f p v q = if p =ℕ q then v else f q

abbrev pub M : Type 0 → Type 0 → Type 0
M S A = Go (World S) A

module _ {S : Type 0} where
  -- a method with a pointer receiver
  unfoldable pub on_message {ℓ} : {A : Type ℓ} → ℕ → Go Message A → Go (World S) A
  on_message p f w = let (out, m) = f (w.cells p) in (out, record w { cells = update w.cells p m })

  unfoldable pub read {ℓ} : {A : Type ℓ} → ℕ → (Message → A) → Go (World S) A
  read p f w = (Outcome.done (f (w.cells p)), w)

  -- &Message{...}
  unfoldable pub alloc : Message → M S ℕ
  alloc m w = (Outcome.done w.next, record w { cells = update w.cells w.next m; next = w.next + 1 })

  -- ctx.Err(): nil while ctx.Done() is open
  unfoldable pub ctx_err : World S → Context → Option Err
  ctx_err w Context.background = none
  ctx_err w (Context.with_value k v ctx) = ctx_err w ctx
  ctx_err w (Context.with_cancel n ctx) =
      let outer = ctx_err w ctx in elim (w.cancelled n) [ some e ↦ some e | none ↦ outer ]

  -- wg.Add(1) and wg.Done() of runningHandlersWg
  unfoldable pub add_running : M S (Unit {0})
  add_running w = (Outcome.done tt, record w { running_handlers = w.running_handlers + 1 })

  unfoldable pub done_running : M S (Unit {0})
  done_running w =
      if w.running_handlers =ℕ 0
      then (Outcome.panics (PanicValue.text "sync: negative WaitGroup counter"), w)
      else (Outcome.done tt, record w { running_handlers = w.running_handlers - 1 })

  -- context.WithCancel and context.WithTimeout: whether a deadline has passed is the world's to say
  unfoldable pub with_cancel : Context → M S Context
  with_cancel ctx w = (
    Outcome.done (Context.with_cancel w.next_context ctx),
    record w { next_context = w.next_context + 1 },
  )

  abbrev pub end_context : Option Err → ℕ → World S → World S
  end_context none n w = record w { cancelled = update w.cancelled n (some Err.canceled) }
  end_context (some e) n w = w

  -- the CancelFunc: the first cancellation of a context stays
  unfoldable pub cancel : Context → M S (Unit {0})
  unfolding ctx_err
  cancel (Context.with_cancel n ctx) w =
      (Outcome.done tt, end_context (ctx_err w (Context.with_cancel n ctx)) n w)
  cancel ctx w = (Outcome.done tt, w)

on_metadata : Go Metadata (Unit {0}) → Go Message (Unit {0})
on_metadata f m = let (out, md) = f m.metadata in (out, record m { metadata = md })

module _ {S : Type 0} where
  -- msg.Metadata.Set(key, value)
  unfoldable pub set_metadata : ℕ → String → String → M S (Unit {0})
  unfolding on_message on_metadata Headers.set
  set_metadata p key value = on_message p (on_metadata (Headers.set key value))

  -- msg.Metadata.Get(key)
  unfoldable pub get_metadata : ℕ → String → M S String
  unfolding read Headers.get
  get_metadata p key = read p λ m. Headers.get m.metadata key

  -- msg.Context()
  unfoldable pub message_context : ℕ → M S Context
  unfolding read context_of
  message_context p = read p context_of

  -- msg.SetContext(ctx)
  unfoldable pub set_message_context : Context → ℕ → M S (Unit {0})
  unfolding on_message set_context
  set_message_context ctx p = on_message p λ m. (Outcome.done tt, set_context ctx m)

  -- msg.Ack(), msg.Nack(), whose result the program drops
  unfoldable pub ack_message : ℕ → M S (Unit {0})
  unfolding on_message ack
  ack_message p = do _ ← on_message p ack; pure tt

  unfoldable pub nack_message : ℕ → M S (Unit {0})
  unfolding on_message nack
  nack_message p = do _ ← on_message p nack; pure tt

-- for _, x := range xs { body(x) }
unfoldable pub for_each {ℓ} :
    {S : Type 0} {A : Type ℓ} → (A → M S (Unit {0})) → List A → M S (Unit {0})
for_each body [] = pure tt
for_each body (x ∷ xs) = do body x; for_each body xs
