-- ===== src/Runtime/Laws.antt =====
-- Loops that write to messages one after another. A message may stand in the list more than once,
-- and the messages that it names may be those of another list.
use watermill.Prelude.{
  ℕ, String, ◌==◌, none, some, insert, lookup-insert, Option-cases, ◌≢◌, ◌=ℕ◌, Bool-cases, =ℕ_refl,
  inl, inr, if◌then◌else◌, List, [], ◌∷◌, All, All-mono, ◌≡◌, refl, ap, ◌∙◌, subst, fun_ext, arith,
}
use watermill.Go.{Outcome, resume, ◌>>◌, >>=-done}
use watermill.Message.Headers
use watermill.Message.Headers.{Metadata}
use watermill.Message.Defs.{Message}
use watermill.Runtime.Defs.{World, M, update, on_message, set_metadata, for_each}

-- Writing what is there changes nothing.
pub update_self {ℓ} : {A : Type ℓ} (f : ℕ → A) (p : ℕ) → update f p (f p) ≡ f
update_self f p = fun_ext λ q. ground arith

module _ {S : Type 0} (f : Message → Message) where
  -- the world after `f` has been written to one message, and to each of a list
  abbrev pub map_cell : ℕ → World S → World S
  map_cell p w = record w { cells = update w.cells p (f (w.cells p)) }

  abbrev pub map_cells : List ℕ → World S → World S
  map_cells [] w = w
  map_cells (p ∷ ps) w = map_cells ps (map_cell p w)

  map_cell_at :
      (p q : ℕ) (w : World S)
      → (map_cell p w).cells q ≡ (if p =ℕ q then f (w.cells q) else w.cells q)
  map_cell_at p q w = ground arith

  -- what `f` keeps of a message stays in every message
  pub map_cells-keeps {ℓ} :
      {A : Type ℓ} (g : Message → A)
      → ((m : Message) → g (f m) ≡ g m)
      → (q : ℕ) (ps : List ℕ) (w : World S) → g ((map_cells ps w).cells q) ≡ g (w.cells q)
  map_cells-keeps g keep q [] w = refl
  map_cells-keeps g keep q (p ∷ ps) w =
      map_cells-keeps g keep q ps (map_cell p w)
      ∙ ap g (map_cell_at p q w)
      ∙ (elim (Bool-cases (p =ℕ q)) [ inl e ↦ rw e (keep (w.cells q)) | inr e ↦ rw e refl ])

  module _ (R : Message → Message → Type 0) (step : (m : Message) → R m (f m))
      (trans : (a b c : Message) → R a b → R b c → R a c) where
    carries_on :
        (q : ℕ) (a : Message) (ps : List ℕ) (w : World S)
        → R a (w.cells q)
        → R a ((map_cells ps w).cells q)
    carries_on q a [] w c = c
    carries_on q a (p ∷ ps) w c = carries_on q a ps (map_cell p w) (
        rw map_cell_at (elim (Bool-cases (p =ℕ q)) [
          | inl e ↦ rw e (trans a (w.cells q) (f (w.cells q)) c (step (w.cells q)))
          | inr e ↦ rw e c
        ]))

    before_step :
        (p q : ℕ) (w : World S) (later : Message)
        → R ((map_cell p w).cells q) later
        → R (w.cells q) later
    before_step p q w later c = elim (Bool-cases (p =ℕ q)) [
      | inl e ↦
          trans (w.cells q) (f (w.cells q)) later (step (w.cells q))
            (subst (λ x. R x later) (rw (map_cell_at, e)) c)
      | inr e ↦ subst (λ x. R x later) (rw (map_cell_at, e)) c
    ]

    -- each message of the list is related to what the loop has made of it
    pub map_cells-related :
        (ps : List ℕ) (w : World S) → All (λ q. R (w.cells q) ((map_cells ps w).cells q)) ps
    map_cells-related [] w = tt
    map_cells-related (p ∷ ps) w = (
      carries_on p (w.cells p) ps (map_cell p w) (rw (map_cell_at, =ℕ_refl p) (step (w.cells p))),
      All-mono _ _ ps (λ q. before_step p q w _) (map_cells-related ps (map_cell p w)),
    )

  module _ (P : Message → Type 0) (keep : (m : Message) → P m → P (f m)) (body : ℕ → M S (Unit {0}))
      (runs : (p : ℕ) (w : World S)
        → P (w.cells p)
        → body p w ≡ (Outcome.done tt, map_cell p w)) where
    map_cell-P : (p q : ℕ) (w : World S) → P (w.cells q) → P ((map_cell p w).cells q)
    map_cell-P p q w h =
        rw map_cell_at
          (elim (Bool-cases (p =ℕ q)) [ inl e ↦ rw e (keep (w.cells q) h) | inr e ↦ rw e h ])

    -- a loop whose body writes `f`, on messages that have what the body needs
    pub for_each-map_cells :
        (ps : List ℕ) (w : World S)
        → All (λ q. P (w.cells q)) ps
        → for_each body ps w ≡ (Outcome.done tt, map_cells ps w)
    unfolding for_each
    for_each-map_cells [] w h = refl
    for_each-map_cells (p ∷ ps) w (h, hs) =
        ap (λ t. resume t.0 (λ _. for_each body ps) t.1) (runs p w h)
        ∙ for_each-map_cells ps (map_cell p w) (All-mono _ _ ps (λ q. map_cell-P p q w) hs)

pub map_cell-map_cell :
    {S : Type 0} (f g : Message → Message) (p : ℕ) (w : World S)
    → map_cell g p (map_cell f p w) ≡ map_cell (λ m. g (f m)) p w
map_cell-map_cell f g p w = ap (λ c. record w { cells = c }) (fun_ext λ q. ground arith)

-- The message can be given metadata: its map is not nil.
abbrev pub IsWritable : Message → Type 0
IsWritable m = m.metadata ≢ none

-- a message with one more metadata entry
abbrev write : String → String → Metadata → Metadata
write k v none = none
write k v (some es) = some (insert k v es)

abbrev pub written : String → String → Message → Message
written k v m = record m { metadata = write k v m.metadata }

pub written-IsWritable : (k v : String) (m : Message) → IsWritable m → IsWritable (written k v m)
written-IsWritable k v m h = ground arith

pub get-written :
    (k v : String) (m : Message) (j : String)
    → IsWritable m
    → Headers.get (written k v m).metadata j ≡ (if k == j then v else Headers.get m.metadata j)
unfolding Headers.get
get-written k v m j h = elim (Option-cases m.metadata) [
  | inl e ↦ absurd (h e)
  | inr (es, e) ↦ ground (arith, lookup-insert k j v es)
]

pub set_metadata_lem :
    {S : Type 0} (p : ℕ) (k v : String) (w : World S)
    → IsWritable (w.cells p)
    → set_metadata p k v w ≡ (Outcome.done tt, map_cell (written k v) p w)
unfolding set_metadata on_message Headers.set
set_metadata_lem p k v w h = elim (Option-cases (w.cells p).metadata) [
  | inl e ↦ absurd (h e)
  | inr (es, e) ↦ ground arith
]

-- a write into the metadata, and then the rest
pub set_metadata_then :
    {S A : Type 0} (p : ℕ) (k v : String) (rest : M S A) (w : World S)
    → IsWritable (w.cells p)
    → (set_metadata p k v >> rest) w ≡ rest (map_cell (written k v) p w)
set_metadata_then p k v rest w h =
    >>=-done (set_metadata p k v) (λ _. rest) (set_metadata_lem p k v w h)

-- the message stays writable, with its context
pub written_at :
    {S : Type 0} (k v : String) (p : ℕ) (w : World S)
    → IsWritable (w.cells p)
    → IsWritable ((map_cell (written k v) p w).cells p)
      × (((map_cell (written k v) p w).cells p).ctx ≡ (w.cells p).ctx)
written_at k v p w h = ground (arith, written-IsWritable k v (w.cells p) h)
