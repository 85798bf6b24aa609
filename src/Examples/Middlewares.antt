-- ===== src/Examples/Middlewares.antt =====
-- The theorems on middlewares and on bulk reading at concrete handler functions.
use watermill.Prelude.{
  ℕ, false, pos, ◌+◌, String, true, none, some, List, [], ◌∷◌, All, ltb, not, ◌≡◌, ◌≢◌, refl,
  lookup, arith,
}
use watermill.Go.{pure, ◌>>◌, Err, PanicValue, Outcome, panic}
use watermill.Message.Headers
use watermill.Runtime.{ack_message, for_each, World, ctx_err}
use watermill.Runtime.Laws.{map_cell}
use watermill.PubSub.{HandlerFunc}
use watermill.Middleware.Basic.{recoverer, recovered_by, timeout}
use watermill.Middleware.Guards.{limited, limited_world, timeout_cancels}
use watermill.Middleware.Correlation.{correlation_id_metadata_key, correlation_id}
use watermill.Middleware.CorrelationSpread.{Correlated, correlation_id_spreads}
use watermill.Middleware.Poison.{PoisonQueue, poison_queue_middleware}
use watermill.Middleware.PoisonPublishes.{poisoned, SaysWhy, poison_queue_publishes}
use watermill.Middleware.Dedup.{MapExpiringKeyRepository, check_key, clean_out}
use watermill.Middleware.Poison.{new_ignore_errors, ignore_errors}
use watermill.Middleware.Filters.{ignore_errors_lem}
use watermill.Middleware.DedupWindow.{RepositoryEvent, happen, remembers_window}
use watermill.BulkRead.{Arrival, bulk_read, bulk_read_lem}
use watermill.Examples.Data.{Log, plain, world, log, recorder, failing, produce_one, some≢none}

abbrev panicking : HandlerFunc Log
panicking msg = panic (PanicValue.text "boom")

recoverer-panicking : recoverer panicking 0 world ≡ (
  Outcome.done ([], some (Err.with_stack (Err.recovered_panic (PanicValue.text "boom")))),
  world,
)
unfolding recoverer recovered_by
recoverer-panicking = refl

timeout_cancels_example :
    ((timeout panicking 0 world).0 ≡ (panicking 0 (limited_world panicking 0 world)).0)
    × (ctx_err (timeout panicking 0 world).1 (limited panicking 0 world) ≢ none)
timeout_cancels_example = timeout_cancels panicking 0 world

correlation_id_spreads_example :
    let id = Headers.get (world.cells 0).metadata correlation_id_metadata_key in
    (w2 : World Log) × (correlation_id produce_one 0 world ≡ (Outcome.done (1 ∷ [], none), w2))
    × All (λ q. Correlated id (world.cells q) (w2.cells q)) (1 ∷ [])
correlation_id_spreads_example =
    correlation_id_spreads produce_one 0 world (1 ∷ []) none world refl (some≢none, tt)

abbrev queue : PoisonQueue Log
queue = record { topic = "poison"; publisher = recorder; should_go_to_poison_queue = λ _. true }

abbrev says : Err → String
says err = "failed"

abbrev why : Err
why = Err.new "failed"

poison_queue_publishes_example :
    (poison_queue_middleware says queue failing 0 world
      ≡ (Outcome.done ([], none), log "poison" (0 ∷ []) (map_cell (poisoned says why) 0 world)))
    × SaysWhy "failed" plain (poisoned says why plain)
poison_queue_publishes_example =
    poison_queue_publishes says queue failing 0 [] why none world world
      (log "poison" (0 ∷ []) (map_cell (poisoned says why) 0 world)) refl refl some≢none refl

abbrev repository : MapExpiringKeyRepository
repository = record { window = 1000000; tags = [] }

abbrev events : List RepositoryEvent
events = RepositoryEvent.check 8 "other" ∷ RepositoryEvent.tick 500000 ∷ []

remembers_window_example :
    ((check_key 9 "key" (happen events (check_key 7 "key" repository).1)).0 ≡ true)
    × ((check_key 9 "key" (clean_out 1500000 (happen events (check_key 7 "key" repository).1))).0
        ≡ not (ltb (7 + repository.window) 1500000))
unfolding check_key lookup
remembers_window_example =
    remembers_window 7 "key" repository events tt refl (ground arith, tt) 9 1500000

ignore_errors_lem_example :
    ignore_errors says (λ e. e) (new_ignore_errors says (λ e. e) (why ∷ []) []) failing 0 world
    ≡ (Outcome.done ([], none), world)
ignore_errors_lem_example =
    ignore_errors_lem says (λ e. e) (why ∷ []) failing 0 [] why world world refl

abbrev first_read : List ℕ
first_read = 1 ∷ []

bulk_read_lem_example :
    bulk_read (pos 2) (Arrival.message 1 ∷ Arrival.timeout ∷ Arrival.message 2 ∷ []) world
    ≡ (do for_each ack_message first_read; pure (first_read, false)) world
bulk_read_lem_example =
    bulk_read_lem (pos 2) (Arrival.message 1 ∷ Arrival.timeout ∷ Arrival.message 2 ∷ []) world
