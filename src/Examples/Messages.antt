-- ===== src/Examples/Messages.antt =====
-- The theorems on messages at concrete ones.
use watermill.Prelude.{true, false, String, none, some, [], ◌∷◌, ◌≡◌, ◌≢◌, ◌↔◌, refl, lookup}
use watermill.Go.{Outcome}
use watermill.Message.Headers.{entries}
use watermill.Message.Defs.{Message, AckType}
use watermill.Message.Ack.{Call, run_calls}
use watermill.Message.Content.{equals, copy}
use watermill.Message.Settlement.{IsConsistent, settled, first_call_decides}
use watermill.Message.Equality.{SameContent, IsWellFormed, equals_iff, equals_missing_key, copy_lem}
use watermill.Examples.Data.{plain, labelled, open≢closed, unlike}

first_call_decides_example :
    (run_calls (Call.nacks ∷ Call.acks ∷ []) plain
      ≡ (Outcome.done (true ∷ false ∷ []), settled Call.nacks plain))
    × IsConsistent (settled Call.nacks plain)
first_call_decides_example =
    first_call_decides Call.nacks (Call.acks ∷ []) plain (open≢closed, open≢closed) refl

equals_iff_example : (equals labelled plain ≡ true) ↔ SameContent labelled plain
unfolding lookup
equals_iff_example = equals_iff labelled plain (refl, tt) tt (unlike "c1" "" refl, tt)

abbrev empty_at : String → Message
empty_at k = record plain { metadata = some ((k, "") ∷ []) }

equals_missing_key_example :
    (equals (empty_at "a") (empty_at "b") ≡ true)
    × (lookup "a" (entries (empty_at "a").metadata) ≢ lookup "a" (entries (empty_at "b").metadata))
equals_missing_key_example =
    equals_missing_key (empty_at "a") (empty_at "b") "a" "b" refl refl (unlike "a" "b" refl) refl
      refl

copy_lem_example :
    SameContent labelled (copy labelled)
    × IsWellFormed (copy labelled)
    × (equals labelled (copy labelled) ≡ true)
    × ((copy labelled).ctx ≡ none)
    × ((copy labelled).ack_sent_type ≡ AckType.no_ack_sent)
    × IsConsistent (copy labelled)
unfolding lookup
copy_lem_example = copy_lem labelled (refl, tt)
