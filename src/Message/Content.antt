-- ===== src/Message/Content.antt =====
-- message/message.go: Equals, Copy and CopyWithContext.
use watermill.Prelude.{
  ℕ, String, Bool, true, false, not, ◌&&◌, ◌==◌, ◌=ℕ◌, if◌then◌else◌, some, List, [], ◌∷◌, Map,
  insert, length,
}
use watermill.Message.Headers.{Metadata, entries}
use watermill.Message.Headers
use watermill.Message.Defs.{Message, new_message}

-- bytes.Equal
unfoldable pub bytes_equal : List ℕ → List ℕ → Bool
bytes_equal [] [] = true
bytes_equal (a ∷ xs) (b ∷ ys) = (a =ℕ b) && bytes_equal xs ys
bytes_equal _ _ = false

-- the loop of Equals: `value != toCompare.Metadata[key]` reads "" at a missing key
unfoldable pub entries_match : Map String → Metadata → Bool
unfolding Headers.get
entries_match [] md = true
entries_match ((key, value) ∷ m) md =
    let rest = entries_match m md in if value == Headers.get md key then rest else false

-- Equals
unfoldable pub equals : Message → Message → Bool
unfolding entries_match bytes_equal
equals m to_compare =
    if not (m.uuid == to_compare.uuid)
    then false
    else if not (length (entries m.metadata) =ℕ length (entries to_compare.metadata))
    then false
    else if not (entries_match (entries m.metadata) to_compare.metadata)
    then false
    else bytes_equal m.payload to_compare.payload

-- the loop of Copy; the map that it writes was made by NewMessage, so it is never nil
unfoldable pub copy_entries : Map String → Map String → Map String
unfolding insert
copy_entries [] out = out
copy_entries ((key, value) ∷ m) out = copy_entries m (insert key value out)

-- Copy; the payload is shared, and nothing in the program writes into one
unfoldable pub copy : Message → Message
unfolding copy_entries new_message
copy m = record (new_message m.uuid m.payload) {
  metadata = some (copy_entries (entries m.metadata) []);
}

-- CopyWithContext
unfoldable pub copy_with_context : Message → Message
unfolding copy
copy_with_context m = record (copy m) { ctx = m.ctx }
