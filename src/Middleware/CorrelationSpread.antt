-- ===== src/Middleware/CorrelationSpread.antt =====
-- The correlation ID that the middleware gives to the produced messages.
use watermill.Prelude.{
  ℕ, String, ◌&&◌, ◌==◌, eq_iff, if◌then◌else◌, Option, none, some, List, All, All-mono, All-apply,
  ◌≡◌, ◌≢◌, refl, arith, insert, lookup-insert, Bool-cases, inl, inr, ◌∙◌, Option-cases,
}
use watermill.Go.{Err, Outcome, pure, >>=-done}
use watermill.Message.Headers
use watermill.Message.Headers.{Metadata}
use watermill.Message.Defs.{Message}
use watermill.Runtime.{World, read, on_message, for_each}
use watermill.Runtime.Laws.{
  IsWritable, set_metadata_lem, map_cell, map_cells, map_cells-related, for_each-map_cells,
  update_self,
}
use watermill.PubSub.{HandlerFunc}
use watermill.Middleware.Correlation.{
  correlation_id_metadata_key, message_correlation_id, set_correlation_id, correlate,
  correlation_id,
}

module _ (id : String) where
  abbrev with_id : Metadata → Metadata
  with_id none = none
  with_id (some es) =
      if Headers.get (some es) correlation_id_metadata_key == ""
      then some (insert correlation_id_metadata_key id es)
      else some es

  abbrev pub correlated : Message → Message
  correlated m = record m { metadata = with_id m.metadata }

  get-with_id :
      (md : Metadata) (k : String)
      → md ≢ none
      → Headers.get (with_id md) k ≡ (
          if (correlation_id_metadata_key == k)
            && (Headers.get md correlation_id_metadata_key == "")
          then id
          else Headers.get md k)
  unfolding Headers.get
  get-with_id none k h = absurd (h refl)
  get-with_id (some es) k h = ground (
    arith,
    lookup-insert correlation_id_metadata_key k id es,
    eq_iff correlation_id_metadata_key k,
  )

  with_id-writable : (md : Metadata) → md ≢ none → with_id md ≢ none
  with_id-writable none h = h
  with_id-writable (some es) h = ground arith

  -- Of the metadata only the correlation ID is written, and only where it was missing or empty.
  pub record Correlated (before later : Message) : Type 0 where
    pub at_key :
        (k : String)
        → Headers.get later.metadata k ≡ (
            if (correlation_id_metadata_key == k)
              && (Headers.get before.metadata correlation_id_metadata_key == "")
            then id
            else Headers.get before.metadata k)

  Correlated-trans : (a b c : Message) → Correlated a b → Correlated b c → Correlated a c
  Correlated-trans a b c p q = record {
    at_key = λ k. ground (
      arith,
      p.at_key k,
      p.at_key correlation_id_metadata_key,
      q.at_key k,
      eq_iff correlation_id_metadata_key k,
      eq_iff correlation_id_metadata_key correlation_id_metadata_key,
    );
  }

  set_correlation_id_lem :
      {S : Type 0} (p : ℕ) (w : World S)
      → IsWritable (w.cells p)
      → set_correlation_id id p w ≡ (Outcome.done tt, map_cell correlated p w)
  unfolding set_correlation_id on_message read
  set_correlation_id_lem p w v = elim (Option-cases (w.cells p).metadata) [
    | inl e ↦ absurd (v e)
    | inr (es, e) ↦ elim (Bool-cases (Headers.get (some es) correlation_id_metadata_key == "")) [
      | inl f ↦ ground (arith, set_metadata_lem p correlation_id_metadata_key id w)
      | inr f ↦ ground (arith, update_self w.cells p)
    ]
  ]

-- Whatever the handler function returns, an error or not, CorrelationID returns it too, and each of
-- the produced messages, if their metadata can be written, has got the correlation ID of the
-- consumed message, unless it had one that is not empty; no other metadata of theirs has changed.
pub correlation_id_spreads :
    {S : Type 0} (h : HandlerFunc S) (msg : ℕ) (w : World S) (produced : List ℕ) (err : Option Err)
    (w1 : World S)
    → h msg w ≡ (Outcome.done (produced, err), w1)
    → All (λ q. IsWritable (w1.cells q)) produced
    → let id = Headers.get (w1.cells msg).metadata correlation_id_metadata_key in
      (w2 : World S) × (correlation_id h msg w ≡ (Outcome.done (produced, err), w2))
      × All (λ q. Correlated id (w1.cells q) (w2.cells q)) produced
unfolding correlation_id correlate message_correlation_id read
correlation_id_spreads h msg w produced err w1 e v =
    let id = Headers.get (w1.cells msg).metadata correlation_id_metadata_key in
    let looped =
      for_each-map_cells (correlated id) IsWritable (λ m. with_id-writable id m.metadata)
        (set_correlation_id id) (λ p u. set_correlation_id_lem id p u) produced w1 v in
    (
      map_cells (correlated id) produced w1,
      >>=-done (h msg) (correlate msg) e
          ∙ >>=-done (for_each (set_correlation_id id) produced) (λ _. pure (produced, err)) looped,
      All-mono _ _ produced (λ q. λ x. x.0)
          (All-apply _ _ produced
            (map_cells-related (correlated id)
              (λ a b. IsWritable a → Correlated id a b × IsWritable b)
              (λ m u. (
                record { at_key = λ k. get-with_id id m.metadata k u },
                with_id-writable id m.metadata u,
              ))
              (λ a b c p q u. (Correlated-trans id a b c (p u).0 (q (p u).1).0, (q (p u).1).1))
              produced w1)
            v),
    )
