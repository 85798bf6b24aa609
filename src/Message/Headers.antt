-- ===== src/Message/Headers.antt =====
-- message/metadata.go: `Metadata` is a map, and `none` is the nil map, which can be read and not
-- written.
use watermill.Prelude.{String, Option, none, some, [], Map, lookup, insert}
use watermill.Go.{Go, Outcome, PanicValue, panic}

abbrev pub Metadata : Type 0
Metadata = Option (Map String)

-- what a `range` over the map goes through
abbrev pub entries : Metadata → Map String
entries none = []
entries (some m) = m

abbrev or_empty : Option String → String
or_empty none = ""
or_empty (some v) = v

-- Metadata.Get
unfoldable pub get : Metadata → String → String
unfolding lookup
get md key = or_empty (lookup key (entries md))

-- Metadata.Set
unfoldable pub set : String → String → Go Metadata (Unit {0})
unfolding insert
set key value none = panic (PanicValue.text "assignment to entry in nil map") none
set key value (some m) = (Outcome.done tt, some (insert key value m))
