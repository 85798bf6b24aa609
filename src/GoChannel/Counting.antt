-- ===== src/GoChannel/Counting.antt =====
-- Counting the subscribers of a registry.
use watermill.Prelude.{
  ℕ, ◌+◌, ◌<◌, ◌≤◌, ◌∷◌, ◌++◌, ◌=ℕ◌, String, if◌then◌else◌, Option, none, some, List, [], Map,
  lookup, insert, delete, length, ◌≡◌, arith, inl, inr, Bool-cases,
}
use watermill.GoChannel.Defs.{without}

-- how often a subscriber stands in a list
abbrev pub count : ℕ → List ℕ → ℕ
count s [] = 0
count s (sub ∷ subs) = (if sub =ℕ s then 1 else 0) + count s subs

pub count-append : (s : ℕ) (xs ys : List ℕ) → count s (xs ++ ys) ≡ count s xs + count s ys
count-append s [] ys = omega arith
count-append s (x ∷ xs) ys = ground (arith, count-append s xs ys)

-- the number of all subscribers
abbrev pub total : Map (List ℕ) → ℕ
total [] = 0
total ((topic, subs) ∷ m) = length subs + total m

abbrev pub subs_of : Option (List ℕ) → List ℕ
subs_of none = []
subs_of (some subs) = subs

pub total-insert :
    (k : String) (v : List ℕ) (m : Map (List ℕ))
    → total (insert k v m) + length (subs_of (lookup k m)) ≡ total m + length v
unfolding insert lookup
total-insert k v [] = omega arith
total-insert k v ((j, w) ∷ m) = ground (arith, total-insert k v m)

pub total-delete :
    (k : String) (m : Map (List ℕ)) → total (delete k m) + length (subs_of (lookup k m)) ≡ total m
unfolding delete lookup
total-delete k [] = omega arith
total-delete k ((j, w) ∷ m) = ground (arith, total-delete k m)

-- the list that `without` leaves has the subscriber once less
pub without_lem :
    (s : ℕ) (subs : List ℕ)
    → 0 < count s subs
    → (others : List ℕ) × (without s subs ≡ some others)
      × ((u : ℕ) → count u others + (if s =ℕ u then 1 else 0) ≡ count u subs)
      × (length others + 1 ≡ length subs)
unfolding without
without_lem s [] h = ground arith
without_lem s (sub ∷ subs) h = elim (Bool-cases (sub =ℕ s)) [
  | inl e ↦ (subs, ground arith, (λ u. ground arith), ground arith)
  | inr e ↦
      let (others, e', c, l) = without_lem s subs (ground arith) in
      (sub ∷ others, ground arith, (λ u. ground (arith, c u)), ground arith)
]

pub length-total :
    (topic : String) (subs : List ℕ) (m : Map (List ℕ))
    → lookup topic m ≡ some subs
    → length subs ≤ total m
unfolding lookup
length-total topic subs [] h = ground arith
length-total topic subs ((j, w) ∷ m) h = ground (arith, length-total topic subs m)
