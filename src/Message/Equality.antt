-- ===== src/Message/Equality.antt =====
-- Equals against the content of two messages, and Copy against Equals.
use watermill.Prelude.{
  ℕ, String, true, ◌==◌, eq_iff, Option, none, some, List, [], ◌∷◌, ◌≡◌, ◌≢◌, ◌↔◌, refl, sym, arith,
  Map, lookup, insert, delete, HasUniqueKeys, length, lookup-insert, lookup-delete,
  insert-HasUniqueKeys, delete-HasUniqueKeys, length-delete, Option-cases, Bool-cases, inl, inr,
}
use watermill.Message.Headers.{Metadata, entries}
use watermill.Message.Headers
use watermill.Message.Defs.{Message, AckType, new_message}
use watermill.Message.Settlement.{IsConsistent}
use watermill.Message.Content.{bytes_equal, entries_match, equals, copy_entries, copy}

pub bytes_equal_iff : (xs ys : List ℕ) → (bytes_equal xs ys ≡ true) ↔ (xs ≡ ys)
unfolding bytes_equal
bytes_equal_iff [] [] = ground arith
bytes_equal_iff [] (y ∷ ys) = ground arith
bytes_equal_iff (x ∷ xs) [] = ground arith
bytes_equal_iff (x ∷ xs) (y ∷ ys) = ground (arith, bytes_equal_iff xs ys)

-- No value is the empty text, which is what a missing key reads as.
abbrev pub HasValues : Map String → Type 0
HasValues [] = Unit {0}
HasValues ((k, v) ∷ m) = (v ≢ "") × HasValues m

-- The two maps agree at every key.
abbrev pub SameEntries : Map String → Map String → Type 0
SameEntries m n = (k : String) → lookup k m ≡ lookup k n

match-delete :
    (k : String) (m n : Map String)
    → HasUniqueKeys n
    → lookup k m ≡ none
    → entries_match m (some n) ≡ true
    → entries_match m (some (delete k n)) ≡ true
unfolding entries_match lookup Headers.get
match-delete k [] n u f h = refl
match-delete k ((i, v) ∷ m) n u f h =
    ground (arith, eq_iff i k, eq_iff k i, lookup-delete k i n u, match-delete k m n u)

-- A map that Equals walks through, of the same size as the other, agrees with it everywhere.
match-SameEntries :
    (m n : Map String)
    → HasUniqueKeys m
    → HasUniqueKeys n
    → HasValues m
    → length m ≡ length n
    → entries_match m (some n) ≡ true
    → SameEntries m n
unfolding entries_match lookup Headers.get
match-SameEntries [] [] um un vm l h k = refl
match-SameEntries [] (e ∷ n) um un vm l h k = absurd (omega arith)
match-SameEntries ((i, v) ∷ m) n (fi, um) un (vi, vm) l h k = elim (Option-cases (lookup i n)) [
  | inl e ↦ ground (arith, eq_iff v "")
  | inr (w, e) ↦
      let walked : entries_match m (some n) ≡ true = ground (arith, eq_iff v w) in
      let ih =
        match-SameEntries m (delete i n) um (delete-HasUniqueKeys i n un) vm
          (omega (arith, length-delete i w n e)) (match-delete i m n un fi walked) k in
      ground (arith, ih, eq_iff v w, eq_iff i k, lookup-delete i k n un)
]

SameEntries-length :
    (m n : Map String) → HasUniqueKeys m → HasUniqueKeys n → SameEntries m n → length m ≡ length n
unfolding lookup
SameEntries-length [] [] um un same = refl
SameEntries-length [] ((j, w) ∷ n) um un same = ground (arith, same j, eq_iff j j)
SameEntries-length ((i, v) ∷ m) n (fi, um) un same =
    let there : lookup i n ≡ some v = ground (arith, same i, eq_iff i i) in
    let ih =
      SameEntries-length m (delete i n) um (delete-HasUniqueKeys i n un)
        (λ k. ground (arith, same k, eq_iff i k, lookup-delete i k n un)) in
    omega (arith, ih, length-delete i v n there)

SameEntries-match :
    (m n : Map String)
    → HasUniqueKeys m
    → ((k v : String) → lookup k m ≡ some v → lookup k n ≡ some v)
    → entries_match m (some n) ≡ true
unfolding entries_match lookup Headers.get
SameEntries-match [] n um sub = refl
SameEntries-match ((i, v) ∷ m) n (fi, um) sub =
    let ih = SameEntries-match m n um (λ k w e. ground (arith, sub k w, eq_iff i k)) in
    ground (arith, ih, sub i v, eq_iff i i, eq_iff v v)

match-entries :
    (m : Map String) (md : Metadata) → entries_match m md ≡ entries_match m (some (entries md))
unfolding entries_match Headers.get
match-entries [] md = refl
match-entries ((k, v) ∷ m) md = ground (arith, match-entries m md)

-- The metadata and the payload of one message are those of the other, and so is the UUID.
pub record SameContent (m t : Message) : Type 0 where
  pub uuid : m.uuid ≡ t.uuid
  pub payload : m.payload ≡ t.payload
  pub metadata : SameEntries (entries m.metadata) (entries t.metadata)

abbrev pub IsWellFormed : Message → Type 0
IsWellFormed m = HasUniqueKeys (entries m.metadata)

SameContent-equals :
    (m t : Message) → IsWellFormed m → IsWellFormed t → SameContent m t → equals m t ≡ true
unfolding equals
SameContent-equals m t um ut s =
    let walked =
      SameEntries-match (entries m.metadata) (entries t.metadata) um
        (λ k v e. ground (arith, s.metadata k)) in
    ground (
      arith,
      eq_iff m.uuid t.uuid,
      bytes_equal_iff m.payload t.payload,
      SameEntries-length (entries m.metadata) (entries t.metadata) um ut s.metadata,
      match-entries (entries m.metadata) t.metadata,
      walked,
    )

equals-SameContent :
    (m t : Message)
    → IsWellFormed m
    → IsWellFormed t
    → HasValues (entries m.metadata)
    → equals m t ≡ true
    → SameContent m t
unfolding equals
equals-SameContent m t um ut vm h = record {
  uuid = ground (arith, eq_iff m.uuid t.uuid);
  payload = ground (arith, bytes_equal_iff m.payload t.payload);
  metadata =
      match-SameEntries (entries m.metadata) (entries t.metadata) um ut vm (ground arith)
        (ground (arith, match-entries (entries m.metadata) t.metadata));
}

-- For messages whose metadata holds a key once, as a Go map does: where the values of the first are
-- not empty, Equals is true exactly when UUID, payload and metadata are the same.
pub equals_iff :
    (m t : Message)
    → IsWellFormed m
    → IsWellFormed t
    → HasValues (entries m.metadata)
    → (equals m t ≡ true) ↔ SameContent m t
equals_iff m t um ut vm = (equals-SameContent m t um ut vm, SameContent-equals m t um ut)

match_missing_key :
    (k j : String) → k ≢ j → entries_match ((k, "") ∷ []) (some ((j, "") ∷ [])) ≡ true
unfolding entries_match lookup Headers.get
match_missing_key k j ne = elim (Bool-cases (j == k)) [
  | inl e ↦ absurd (ne (sym ((eq_iff j k).0 e)))
  | inr e ↦ rw (e, Headers.get) refl
]

-- The condition on the values is needed: two messages with one UUID and payload are equal for
-- Equals if each has one metadata entry, with an empty value, though the keys differ.
pub equals_missing_key :
    (m t : Message) (k j : String)
    → m.metadata ≡ some ((k, "") ∷ [])
    → t.metadata ≡ some ((j, "") ∷ [])
    → k ≢ j
    → m.uuid ≡ t.uuid
    → m.payload ≡ t.payload
    → (equals m t ≡ true) × (lookup k (entries m.metadata) ≢ lookup k (entries t.metadata))
unfolding equals lookup
equals_missing_key m t k j em et ne eu ep = (
  ground
      (arith, eq_iff m.uuid t.uuid, bytes_equal_iff m.payload t.payload, match_missing_key k j ne),
  ground (arith, eq_iff j k, eq_iff k k),
)

copy_entries-HasUniqueKeys :
    (m out : Map String) → HasUniqueKeys out → HasUniqueKeys (copy_entries m out)
unfolding copy_entries
copy_entries-HasUniqueKeys [] out u = u
copy_entries-HasUniqueKeys ((k, v) ∷ m) out u =
    copy_entries-HasUniqueKeys m (insert k v out) (insert-HasUniqueKeys k v out u)

abbrev or_else : Option String → Option String → Option String
or_else none o = o
or_else (some v) o = some v

lookup-copy_entries :
    (j : String) (m out : Map String)
    → HasUniqueKeys m
    → lookup j (copy_entries m out) ≡ or_else (lookup j m) (lookup j out)
unfolding copy_entries lookup
lookup-copy_entries j [] out u = refl
lookup-copy_entries j ((k, v) ∷ m) out (fresh, u) =
    ground (arith, lookup-copy_entries j m (insert k v out) u, lookup-insert k j v out, eq_iff k j)

-- The copy of a message has its content, for a reader and for Equals, holds a key once, has no
-- context, and is not acknowledged in either way.
pub copy_lem :
    (m : Message)
    → IsWellFormed m
    → SameContent m (copy m)
      × IsWellFormed (copy m)
      × (equals m (copy m) ≡ true)
      × ((copy m).ctx ≡ none)
      × ((copy m).ack_sent_type ≡ AckType.no_ack_sent)
      × IsConsistent (copy m)
unfolding copy new_message lookup
copy_lem m u = (same, fine, SameContent-equals m (copy m) u fine same, refl, refl, ground arith)
  where
    fine : IsWellFormed (copy m)
    fine = copy_entries-HasUniqueKeys (entries m.metadata) [] tt

    same : SameContent m (copy m)
    same = record {
      uuid = refl;
      payload = refl;
      metadata = λ k. ground (arith, lookup-copy_entries k (entries m.metadata) [] u);
    }
