-- ===== src/Components/Requeuer.antt =====
-- components/requeuer/requeuer.go. Decimal notation (strconv) is a parameter, and so is the wait for
-- the delay, which says whether the message's context was done first.
use watermill.Prelude.{
  ℕ, ℤ, pos, ◌+ℤ◌, int64, ltb_ℤ, String, Bool, true, false, ◌==◌, if◌then◌else◌, Option, none, some,
  [], ◌∷◌, ◌≡◌, ap, sym, subst, ◌∙◌, arith, =ℕ_refl, eq_refl,
}
use watermill.Go.{Err, Outcome, Result, Go, Context, pure, gets, ◌>>=◌, ◌>>◌, >>=-done}
use watermill.Message.Headers
use watermill.Message.Defs.{Message}
use watermill.Runtime.{World, M, read, set_metadata, message_context, ctx_err}
use watermill.Runtime.Laws.{written, map_cell, IsWritable, get-written, set_metadata_then}
use watermill.PubSub.{Publisher, Subscriber, NoPublishHandlerFunc}
use watermill.Router.Defs.{Router, add_consumer_handler, new_router}

abbrev pub retries_key : String
retries_key = "_watermill_requeuer_retries"

-- strconv.Atoi, where `none` is an error, and strconv.Itoa
pub record Decimal : Type 0 where
  pub atoi : String → Option ℤ
  pub itoa : ℤ → String

pub record Config (S : Type 0) : Type 0 where
  pub subscriber : Option (Subscriber S)
  pub subscribe_topic : String
  pub publisher : Option (Publisher S)
  pub generate_publish_topic : Option (ℕ → M S (Result String))
  pub delay : ℤ
  pub router : Option (Router S)

-- a Requeuer whose configuration is valid
pub record Requeuer (S : Type 0) : Type 0 where
  pub publisher : Publisher S
  pub generate_publish_topic : ℕ → M S (Result String)
  pub delay : ℤ

abbrev or_zero : Option ℤ → ℤ
or_zero none = pos 0
or_zero (some n) = n

-- the retries that a message has counted
unfoldable pub retries_of : Decimal → Message → ℤ
unfolding Headers.get
retries_of d m = or_zero (d.atoi (Headers.get m.metadata retries_key))

counted :
    {S : Type 0} (d : Decimal) (msg : ℕ) {n : ℤ} (v : String) (w : World S)
    → IsWritable (w.cells msg)
    → d.atoi v ≡ some n
    → retries_of d ((map_cell (written retries_key v) msg w).cells msg) ≡ n
unfolding retries_of
counted d msg v w writable e = ground (
  arith,
  get-written retries_key v (w.cells msg) retries_key writable,
  eq_refl retries_key,
  =ℕ_refl msg,
  e,
)

module _ {S : Type 0} (d : Decimal) (wait : ℤ → Context → M S Bool) where
  requeue_to : Requeuer S → ℕ → Result String → M S (Option Err)
  unfolding read retries_of set_metadata
  requeue_to r msg (Result.fail e) = pure (some e)
  requeue_to r msg (Result.ok topic) = do
    retries ← read msg (retries_of d)
    set_metadata msg retries_key (d.itoa (int64 (retries +ℤ pos 1)))
    r.publisher.publish topic (msg ∷ [])

  -- the handler from where the delay has passed
  requeue : Requeuer S → ℕ → M S (Option Err)
  unfolding requeue_to
  requeue r msg = do topic ← r.generate_publish_topic msg; requeue_to r msg topic

  after_wait : Requeuer S → ℕ → Context → Bool → M S (Option Err)
  unfolding requeue ctx_err
  after_wait r msg ctx true = gets (λ w. ctx_err w ctx)
  after_wait r msg ctx false = requeue r msg

  wait_and_requeue : Requeuer S → NoPublishHandlerFunc S
  unfolding message_context after_wait
  wait_and_requeue r msg = do
    ctx ← message_context msg
    done_first ← wait r.delay ctx
    after_wait r msg ctx done_first

  -- Requeuer.handler
  unfoldable pub requeue_handler : Requeuer S → NoPublishHandlerFunc S
  unfolding wait_and_requeue requeue
  requeue_handler r msg = if ltb_ℤ (pos 0) r.delay then wait_and_requeue r msg else requeue r msg

  -- Config.validate
  unfoldable pub validate_requeuer : Config S → Result (Subscriber S × Requeuer S)
  validate_requeuer c = elim c.subscriber [
    | none ↦ Result.fail (Err.new "subscriber is required")
    | some subscriber ↦
        if c.subscribe_topic == ""
        then Result.fail (Err.new "subscribe topic is required")
        else elim c.publisher [
          | none ↦ Result.fail (Err.new "publisher is required")
          | some publisher ↦ elim c.generate_publish_topic [
            | none ↦ Result.fail (Err.new "generate publish topic is required")
            | some generate ↦ Result.ok (
              subscriber,
              record { publisher = publisher; generate_publish_topic = generate; delay = c.delay },
            )
          ]
        ]
  ]

  router_or_new : Option (Router S) → Router S
  unfolding new_router
  router_or_new none = new_router 0
  router_or_new (some r) = r

  with_handler :
      Requeuer S → Go (Router S) (Unit {0}) → Router S → Outcome (Result (Requeuer S) × Router S)
  with_handler q add r =
      let (out, r') = add r in
      elim out [
        | Outcome.done u ↦ Outcome.done (Result.ok q, r')
        | Outcome.panics e ↦ Outcome.panics e
      ]

  -- NewRequeuer, with the router that it is given or makes
  unfoldable pub new_requeuer : Config S → Outcome (Result (Requeuer S) × Router S)
  unfolding validate_requeuer router_or_new with_handler requeue_handler
  new_requeuer c =
      let r = router_or_new c.router in
      elim (validate_requeuer c) [
        | Result.fail e ↦ Outcome.done (Result.fail (Err.wrap e "invalid config"), r)
        | Result.ok (subscriber, q) ↦
            with_handler q
              (add_consumer_handler "requeuer" c.subscribe_topic subscriber (requeue_handler q)) r
      ]

  -- With a decimal notation that reads back the numbers of 64 bits that it has written, without a delay,
  -- and when a topic is generated for a message whose metadata are not nil and which that does not
  -- touch: the requeuer publishes the message, to that topic, with its count of retries raised by one,
  -- and what is read there next is the old count, or zero, plus one on 64 bits.
  pub requeue_counts :
      (r : Requeuer S) (msg : ℕ) (topic : String) (w w1 : World S)
      → ((n : ℤ) → d.atoi (d.itoa (int64 n)) ≡ some (int64 n))
      → ltb_ℤ (pos 0) r.delay ≡ false
      → r.generate_publish_topic msg w ≡ (Outcome.done (Result.ok topic), w1)
      → w1.cells msg ≡ w.cells msg
      → IsWritable (w.cells msg)
      → (w2 : World S) × (requeue_handler r msg w ≡ r.publisher.publish topic (msg ∷ []) w2)
        × (retries_of d (w2.cells msg) ≡ int64 (retries_of d (w.cells msg) +ℤ pos 1))
  unfolding requeue_handler read requeue requeue_to
  requeue_counts r msg topic w w1 reads no_delay generated same writable =
      let v = d.itoa (int64 (retries_of d (w1.cells msg) +ℤ pos 1)) in
      let writable1 = subst IsWritable (sym same) writable in
      (
        map_cell (written retries_key v) msg w1,
        ap (λ b. (if b then wait_and_requeue r msg else requeue r msg) w) no_delay
            ∙ >>=-done (r.generate_publish_topic msg) (requeue_to r msg) generated
            ∙ set_metadata_then msg retries_key v (r.publisher.publish topic (msg ∷ [])) w1
                writable1,
        counted d msg v w1 writable1 (reads (retries_of d (w1.cells msg) +ℤ pos 1))
            ∙ ap (λ m. int64 (retries_of d m +ℤ pos 1)) same,
      )
