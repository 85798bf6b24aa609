-- ===== src/Middleware/Dedup.antt =====
-- message/router/middleware/deduplicator.go. Instants and durations are in nanoseconds. The checksums
-- are parameters, and so is a repository, which the map repository below is one of.
use watermill.Prelude.{
  take, ℕ, ◌*◌, ◌+◌, ◌/◌, ◌∷◌, ltb, String, Bool, true, false, if◌then◌else◌, Option, none, some,
  List, [], Map, lookup, insert, delete, length,
}
use watermill.Go.{Err, Outcome, Result, Context, pure, ◌>>=◌, ◌>>◌, defer_call}
use watermill.Runtime.{M, read, with_cancel, cancel, message_context, ack_message}
use watermill.Message.Defs.{Message}
use watermill.PubSub.{Publisher, HandlerFunc, PublisherDecorator}

-- time.Millisecond, time.Minute
abbrev pub millisecond : ℕ
millisecond = 1000000

abbrev pub minute : ℕ
minute = 60000000000

-- struct mapExpiringKeyRepository
pub record MapExpiringKeyRepository : Type 0 where
  pub window : ℕ
  pub tags : Map ℕ

-- NewMapExpiringKeyRepository: the repository, and the period of the ticker of its clean-up
unfoldable pub new_map_expiring_key_repository : ℕ → Result (MapExpiringKeyRepository × ℕ)
new_map_expiring_key_repository window =
    if ltb window millisecond
    then Result.fail (Err.new "deduplication window of less than a millisecond is impractical")
    else Result.ok (record { window = window; tags = [] }, window / 2)

check_tag : Option ℕ → ℕ → String → MapExpiringKeyRepository → Bool × MapExpiringKeyRepository
unfolding insert
check_tag (some _) now key kr = (true, kr)
check_tag none now key kr = (false, record kr { tags = insert key (now + kr.window) kr.tags })

-- mapExpiringKeyRepository.IsDuplicate, at the instant `now`
unfoldable pub check_key : ℕ → String → MapExpiringKeyRepository → Bool × MapExpiringKeyRepository
unfolding check_tag lookup
check_key now key kr = check_tag (lookup key kr.tags) now key kr

-- the loop of cleanOut, over the entries that the map had before it
unfoldable pub clean_entries : ℕ → Map ℕ → Map ℕ → Map ℕ
unfolding delete
clean_entries tags_before [] tags = tags
clean_entries tags_before ((hash, expires) ∷ es) tags =
    clean_entries tags_before es (if ltb expires tags_before then delete hash tags else tags)

-- mapExpiringKeyRepository.cleanOut
unfoldable pub clean_out : ℕ → MapExpiringKeyRepository → MapExpiringKeyRepository
unfolding clean_entries
clean_out tags_before kr = record kr { tags = clean_entries tags_before kr.tags kr.tags }

-- mapExpiringKeyRepository.Len
unfoldable pub tag_count : MapExpiringKeyRepository → ℕ
tag_count kr = length kr.tags

-- interface ExpiringKeyRepository
pub record ExpiringKeyRepository (S : Type 0) : Type 0 where
  pub is_duplicate : Context → String → M S (Result Bool)

abbrev pub MessageHasher : Type 0 → Type 0
MessageHasher S = ℕ → M S (Result String)

-- struct Deduplicator, with its fields that may be nil
pub record DeduplicatorConfig (S : Type 0) : Type 0 where
  pub key_factory : Option (MessageHasher S)
  pub repository : Option (ExpiringKeyRepository S)
  pub timeout : ℕ

-- a Deduplicator after applyDefaultsToDeduplicator
pub record Deduplicator (S : Type 0) : Type 0 where
  pub key_factory : MessageHasher S
  pub repository : ExpiringKeyRepository S
  pub timeout : ℕ

-- MessageHasherReadLimitMinimum
abbrev pub message_hasher_read_limit_minimum : ℕ
message_hasher_read_limit_minimum = 64

abbrev pub read_limit_of : ℕ → ℕ
read_limit_of read_limit =
    if ltb read_limit message_hasher_read_limit_minimum
    then message_hasher_read_limit_minimum
    else read_limit

field_or_error : Message → String → Option String → Result String
field_or_error m field (some value) = Result.ok value
field_or_error m field none =
    Result.fail (Err.typed "cannot recover hash value from metadata of message" field)

or_default {ℓ} : {A : Type ℓ} → Option A → A → A
or_default (some a) d = a
or_default none d = d

at_least_five : ℕ → ℕ
at_least_five t = if ltb t (5 * millisecond) then 5 * millisecond else t

module _ {S : Type 0} where
  -- NewMessageHasherAdler32, NewMessageHasherSHA256: they differ in the checksum, and io.CopyN reads
  -- up to the limit
  unfoldable pub message_hasher : (List ℕ → String) → ℕ → MessageHasher S
  message_hasher sum read_limit msg =
      read msg λ m. Result.ok (sum (take (read_limit_of read_limit) m.payload))

  -- NewMessageHasherFromMetadataField
  unfoldable pub message_hasher_from_metadata_field : String → MessageHasher S
  unfolding field_or_error
  message_hasher_from_metadata_field field msg =
      read msg
        λ m. field_or_error m field (elim m.metadata [ none ↦ none | some es ↦ lookup field es ])

  -- applyDefaultsToDeduplicator; the defaults are the Adler-32 hasher and a map repository of a minute
  unfoldable pub apply_defaults_to_deduplicator :
      MessageHasher S → ExpiringKeyRepository S → Option (DeduplicatorConfig S) → Deduplicator S
  unfolding or_default at_least_five
  apply_defaults_to_deduplicator hasher kr none = record {
    key_factory = hasher;
    repository = kr;
    timeout = minute;
  }
  apply_defaults_to_deduplicator hasher kr (some d) = record {
    key_factory = or_default d.key_factory hasher;
    repository = or_default d.repository kr;
    timeout = at_least_five d.timeout;
  }

  check_hash : Deduplicator S → ℕ → Result String → M S (Result Bool)
  check_hash d msg (Result.fail err) = pure (Result.fail err)
  check_hash d msg (Result.ok key) = do
    outer ← message_context msg
    ctx ← with_cancel outer
    defer_call (cancel ctx) (d.repository.is_duplicate ctx key)

  -- Deduplicator.IsDuplicate
  unfoldable pub is_duplicate : Deduplicator S → ℕ → M S (Result Bool)
  unfolding check_hash
  is_duplicate d msg = do key ← d.key_factory msg; check_hash d msg key

  unless_duplicate : HandlerFunc S → ℕ → Result Bool → M S (List ℕ × Option Err)
  unless_duplicate h msg (Result.fail err) = pure ([], some err)
  unless_duplicate h msg (Result.ok true) = pure ([], none)
  unless_duplicate h msg (Result.ok false) = h msg

  -- the handler function that Deduplicator.Middleware returns
  unfoldable pub deduplicate : Deduplicator S → HandlerFunc S → HandlerFunc S
  unfolding unless_duplicate
  deduplicate d h msg = do out ← is_duplicate d msg; unless_duplicate h msg out

  -- the body of the loop of deduplicatingPublisherDecorator.Publish, after IsDuplicate
  unfoldable pub keep_recent : ℕ → Result Bool → M S (Result (List ℕ)) → M S (Result (List ℕ))
  keep_recent m (Result.fail err) rest = pure (Result.fail err)
  keep_recent m (Result.ok true) rest = do ack_message m; rest
  keep_recent m (Result.ok false) rest = do
    out ← rest
    pure (elim out [ Result.fail err ↦ Result.fail err | Result.ok ms ↦ Result.ok (m ∷ ms) ])

  -- the loop of deduplicatingPublisherDecorator.Publish: the messages that are not recent
  unfoldable pub not_recent : Deduplicator S → List ℕ → M S (Result (List ℕ))
  unfolding keep_recent
  not_recent d [] = pure (Result.ok [])
  not_recent d (m ∷ ms) = do out ← is_duplicate d m; keep_recent m out (not_recent d ms)

  unfoldable pub publish_recent : Publisher S → String → Result (List ℕ) → M S (Option Err)
  publish_recent pub_ topic (Result.fail err) = pure (some err)
  publish_recent pub_ topic (Result.ok messages) = pub_.publish topic messages

  -- deduplicatingPublisherDecorator
  unfoldable pub deduplicating_publisher : Deduplicator S → Publisher S → Publisher S
  unfolding not_recent publish_recent
  deduplicating_publisher d inner = record {
    name = "middleware.deduplicatingPublisherDecorator";
    publish = λ topic messages. (do out ← not_recent d messages; publish_recent inner topic out);
    close = inner.close;
  }

  -- Deduplicator.PublisherDecorator
  unfoldable pub deduplicator_publisher_decorator : Deduplicator S → PublisherDecorator S
  unfolding deduplicating_publisher
  deduplicator_publisher_decorator d none =
      pure (Result.fail (Err.new "cannot decorate a <nil> publisher"))
  deduplicator_publisher_decorator d (some inner) =
      pure (Result.ok (some (deduplicating_publisher d inner)))

  answer :
      ℕ
      → String
      → (S → MapExpiringKeyRepository)
      → (MapExpiringKeyRepository → S → S)
      → M S (Result Bool)
  unfolding check_key
  answer now key get set w =
      let (seen, kr) = check_key now key (get w.env) in
      (Outcome.done (Result.ok seen), record w { env = set kr w.env })

  -- a map repository that is part of the state, as a repository; `clock` is time.Now()
  unfoldable pub map_repository :
      M S ℕ
      → (S → MapExpiringKeyRepository)
      → (MapExpiringKeyRepository → S → S)
      → ExpiringKeyRepository S
  unfolding answer
  map_repository clock get set = record {
    is_duplicate = λ ctx key. (do now ← clock; answer now key get set);
  }
