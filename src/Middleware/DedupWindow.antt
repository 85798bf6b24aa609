-- ===== src/Middleware/DedupWindow.antt =====
-- How long a map repository remembers a key.
use watermill.Prelude.{
  not, false≢true, ℕ, ◌+◌, ◌∷◌, ◌≤◌, ltb, String, Bool, true, false, ◌==◌, ◌||◌, eq_iff, eq_refl,
  if◌then◌else◌, Option, none, some, List, [], Map, lookup, delete, HasUniqueKeys, lookup-insert,
  insert-HasUniqueKeys, lookup-delete, delete-HasUniqueKeys, ◌≡◌, refl, sym, ap, ◌∙◌, arith, inl,
  inr, Option-cases, Bool-cases,
}
use watermill.Middleware.Dedup.{MapExpiringKeyRepository, check_key, clean_entries, clean_out}

-- What happens to a repository: a call of IsDuplicate, or a tick of the clean-up.
pub data RepositoryEvent : Type 0 where
  check : ℕ → String → RepositoryEvent
  tick : ℕ → RepositoryEvent

abbrev pub happens : RepositoryEvent → MapExpiringKeyRepository → MapExpiringKeyRepository
happens (RepositoryEvent.check now key) kr = (check_key now key kr).1
happens (RepositoryEvent.tick t) kr = clean_out t kr

abbrev pub happen : List RepositoryEvent → MapExpiringKeyRepository → MapExpiringKeyRepository
happen [] kr = kr
happen (e ∷ es) kr = happen es (happens e kr)

-- an entry of the list says that the key has expired
abbrev is_gone : ℕ → String → Map ℕ → Bool
is_gone t k [] = false
is_gone t k ((j, expires) ∷ es) =
    if j == k then (ltb expires t || is_gone t k es) else is_gone t k es

has_expired : ℕ → Option ℕ → Bool
has_expired t none = false
has_expired t (some expires) = ltb expires t

is_gone-fresh : (t : ℕ) (k : String) (es : Map ℕ) → lookup k es ≡ none → is_gone t k es ≡ false
unfolding lookup
is_gone-fresh t k [] h = refl
is_gone-fresh t k ((j, e) ∷ es) h = ground (arith, is_gone-fresh t k es)

is_gone_lem :
    (t : ℕ) (k : String) (es : Map ℕ)
    → HasUniqueKeys es
    → is_gone t k es ≡ has_expired t (lookup k es)
unfolding lookup has_expired
is_gone_lem t k [] u = refl
is_gone_lem t k ((j, e) ∷ es) (fresh, u) =
    ground (arith, eq_iff j k, is_gone-fresh t k es, is_gone_lem t k es u)

clean_entries-HasUniqueKeys :
    (t : ℕ) (es tags : Map ℕ) → HasUniqueKeys tags → HasUniqueKeys (clean_entries t es tags)
unfolding clean_entries
clean_entries-HasUniqueKeys t [] tags u = u
clean_entries-HasUniqueKeys t ((j, e) ∷ es) tags u =
    clean_entries-HasUniqueKeys t es (if ltb e t then delete j tags else tags)
      (elim (ltb e t) as (λ b. HasUniqueKeys (if b then delete j tags else tags)) [
        | true ↦ delete-HasUniqueKeys j tags u
        | false ↦ u
      ])

lookup-clean_entries :
    (t : ℕ) (k : String) (es tags : Map ℕ)
    → HasUniqueKeys tags
    → lookup k (clean_entries t es tags) ≡ (if is_gone t k es then none else lookup k tags)
unfolding clean_entries
lookup-clean_entries t k [] tags u = refl
lookup-clean_entries t k ((j, e) ∷ es) tags u = elim (Bool-cases (ltb e t)) [
  | inl h ↦ ground (
    arith,
    lookup-clean_entries t k es (delete j tags) (delete-HasUniqueKeys j tags u),
    lookup-delete j k tags u,
  )
  | inr h ↦ ground (arith, lookup-clean_entries t k es tags u)
]

lookup-clean_out :
    (t : ℕ) (k : String) (kr : MapExpiringKeyRepository)
    → HasUniqueKeys kr.tags
    → lookup k (clean_out t kr).tags
      ≡ (if has_expired t (lookup k kr.tags) then none else lookup k kr.tags)
unfolding clean_out
lookup-clean_out t k kr u =
    lookup-clean_entries t k kr.tags kr.tags u
    ∙ ap (λ b. if b then none else lookup k kr.tags) (is_gone_lem t k kr.tags u)

check_key-HasUniqueKeys :
    (now : ℕ) (j : String) (kr : MapExpiringKeyRepository)
    → HasUniqueKeys kr.tags
    → HasUniqueKeys (check_key now j kr).1.tags
unfolding check_key
check_key-HasUniqueKeys now j kr u = elim (Option-cases (lookup j kr.tags)) [
  | inl e ↦ rw e (insert-HasUniqueKeys j (now + kr.window) kr.tags u)
  | inr (x, e) ↦ rw e u
]

-- a key that is there stays with its time
check_key-keeps :
    (now : ℕ) (j k : String) (kr : MapExpiringKeyRepository) (x : ℕ)
    → lookup k kr.tags ≡ some x
    → lookup k (check_key now j kr).1.tags ≡ some x
unfolding check_key
check_key-keeps now j k kr x h = elim (Option-cases (lookup j kr.tags)) [
  | inl e ↦ rw e (ground (arith, eq_iff j k, lookup-insert j k (now + kr.window) kr.tags))
  | inr (y, e) ↦ rw e h
]

-- every tick comes at the deadline at the latest
abbrev pub TicksUntil : ℕ → List RepositoryEvent → Type 0
TicksUntil deadline [] = Unit
TicksUntil deadline (RepositoryEvent.check now k ∷ es) = TicksUntil deadline es
TicksUntil deadline (RepositoryEvent.tick t ∷ es) = (t ≤ deadline) × TicksUntil deadline es

abbrev Holds : String → ℕ → MapExpiringKeyRepository → Type 0
Holds key x kr = HasUniqueKeys kr.tags × (lookup key kr.tags ≡ some x)

clean_out-Holds :
    (t : ℕ) (key : String) (x : ℕ) (kr : MapExpiringKeyRepository)
    → t ≤ x
    → HasUniqueKeys kr.tags
    → lookup key kr.tags ≡ some x
    → Holds key x (clean_out t kr)
unfolding clean_out has_expired
clean_out-Holds t key x kr le u h = (
  clean_entries-HasUniqueKeys t kr.tags kr.tags u,
  lookup-clean_out t key kr u ∙ rw h (ground arith),
)

first-Holds :
    (now : ℕ) (key : String) (kr : MapExpiringKeyRepository)
    → HasUniqueKeys kr.tags
    → (check_key now key kr).0 ≡ false
    → Holds key (now + kr.window) (check_key now key kr).1
unfolding check_key
first-Holds now key kr u new = elim (Option-cases (lookup key kr.tags)) [
  | inl e ↦ rw e (
    insert-HasUniqueKeys key (now + kr.window) kr.tags u,
    ground (arith, eq_refl key, lookup-insert key key (now + kr.window) kr.tags),
  )
  | inr (x, e) ↦ absurd (false≢true (sym new ∙ rw e refl))
]

is_some : Option ℕ → Bool
is_some (some _) = true
is_some none = false

check_key_lem :
    (u : ℕ) (key : String) (kr : MapExpiringKeyRepository)
    → (check_key u key kr).0 ≡ is_some (lookup key kr.tags)
unfolding check_key is_some
check_key_lem u key kr = elim (Option-cases (lookup key kr.tags)) [
  | inl e ↦ rw e refl
  | inr (x, e) ↦ rw e refl
]

seen :
    (u : ℕ) (key : String) (kr : MapExpiringKeyRepository) (x : ℕ)
    → lookup key kr.tags ≡ some x
    → (check_key u key kr).0 ≡ true
unfolding is_some
seen u key kr x h = check_key_lem u key kr ∙ rw h refl

after_tick :
    (u t : ℕ) (key : String) (x : ℕ) (kr : MapExpiringKeyRepository)
    → HasUniqueKeys kr.tags
    → lookup key kr.tags ≡ some x
    → (check_key u key (clean_out t kr)).0 ≡ not (ltb x t)
unfolding is_some has_expired
after_tick u t key x kr un h =
    check_key_lem u key (clean_out t kr)
    ∙ ap is_some (lookup-clean_out t key kr un ∙ ap (λ o. if has_expired t o then none else o) h)
    ∙ elim (ltb x t) as (λ b. is_some (if b then none else some x) ≡ not b) [
      | true ↦ refl
      | false ↦ refl
    ]

happen-Holds :
    (key : String) (x : ℕ) (es : List RepositoryEvent) (kr : MapExpiringKeyRepository)
    → TicksUntil x es
    → Holds key x kr
    → Holds key x (happen es kr)
unfolding has_expired
happen-Holds key x [] kr until h = h
happen-Holds key x (RepositoryEvent.check now j ∷ es) kr until (u, h) =
    happen-Holds key x es (check_key now j kr).1 until
      (check_key-HasUniqueKeys now j kr u, check_key-keeps now j key kr x h)
happen-Holds key x (RepositoryEvent.tick t ∷ es) kr (le, until) (u, h) =
    happen-Holds key x es (clean_out t kr) until (clean_out-Holds t key x kr le u h)

-- A key that IsDuplicate has seen for the first time at `now` is a duplicate until the clean-up ticks
-- after `now` and the window: whatever keys are checked and however often the clean-up ticks before
-- that, the key is a duplicate, and after one more tick at `t` it is one just if `t` is not later.
pub remembers_window :
    (now : ℕ) (key : String) (kr : MapExpiringKeyRepository) (es : List RepositoryEvent)
    → HasUniqueKeys kr.tags
    → (check_key now key kr).0 ≡ false
    → TicksUntil (now + kr.window) es
    → (u t : ℕ)
    → ((check_key u key (happen es (check_key now key kr).1)).0 ≡ true)
      × ((check_key u key (clean_out t (happen es (check_key now key kr).1))).0
          ≡ not (ltb (now + kr.window) t))
remembers_window now key kr es uk new until u t =
    let (u1, h1) =
      happen-Holds key (now + kr.window) es (check_key now key kr).1 until
        (first-Holds now key kr uk new) in
    (
      seen u key _ (now + kr.window) h1,
      after_tick u t key (now + kr.window) (happen es (check_key now key kr).1) u1 h1,
    )
