-- ===== src/Middleware/Correlation.antt =====
-- message/router/middleware/correlation.go.
use watermill.Prelude.{ℕ, String, ◌==◌, if◌then◌else◌, Option, List}
use watermill.Go.{Err, pure, ◌>>=◌, ◌>>◌}
use watermill.Runtime.{M, get_metadata, set_metadata, for_each}
use watermill.PubSub.{HandlerMiddleware}

-- CorrelationIDMetadataKey
abbrev pub correlation_id_metadata_key : String
correlation_id_metadata_key = "correlation_id"

module _ {S : Type 0} where
  -- MessageCorrelationID
  unfoldable pub message_correlation_id : ℕ → M S String
  unfolding get_metadata
  message_correlation_id msg = get_metadata msg correlation_id_metadata_key

  -- SetCorrelationID
  unfoldable pub set_correlation_id : String → ℕ → M S (Unit {0})
  unfolding message_correlation_id set_metadata
  set_correlation_id id msg = do
    own ← message_correlation_id msg
    if own == "" then set_metadata msg correlation_id_metadata_key id else pure tt

  unfoldable pub correlate : ℕ → List ℕ × Option Err → M S (List ℕ × Option Err)
  correlate msg (produced, err) = do
    id ← message_correlation_id msg
    for_each (set_correlation_id id) produced
    pure (produced, err)

  -- CorrelationID
  unfoldable pub correlation_id : HandlerMiddleware S
  correlation_id h msg = do out ← h msg; correlate msg out
