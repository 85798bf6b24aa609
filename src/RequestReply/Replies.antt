-- ===== src/RequestReply/Replies.antt =====
-- What BackendPubsubJSONMarshaler writes into a reply.
use watermill.Prelude.{
  ℕ, ◌+◌, String, Option, none, some, List, [], ◌≡◌, refl, ap, sym, subst, ◌∙◌, arith, =ℕ_refl,
  lookup, insert,
}
use watermill.Go.{Err, Outcome, Result, ◌>>=◌, ◌>>◌, >>=-done, >>=_parts}
use watermill.Message.Headers
use watermill.Message.Defs.{Message, new_message}
use watermill.Runtime.{World, M, alloc, update, on_message, set_metadata}
use watermill.Runtime.Laws.{
  written, map_cell, IsWritable, set_metadata_lem, set_metadata_then, map_cell-map_cell, written_at,
}
use watermill.RequestReply.Defs.{
  ProcessedParams, ReplyJson, error_metadata_key, has_error_metadata_key, set_payload, set_error,
  with_payload, reply_error, marshal_json_reply,
}

module _ {S R : Type 0} (json : ReplyJson S R) where
  -- the error that comes back for what the handler returned: its text
  abbrev pub sent_error : Option Err → Option Err
  sent_error none = none
  sent_error (some e) = some (Err.new (json.error_text e))

  abbrev marked : Option Err → Message → Message
  marked none m = written has_error_metadata_key "0" m
  marked (some e) m =
      written has_error_metadata_key "1" (written error_metadata_key (json.error_text e) m)

  set_error_lem :
      (err : Option Err) (p : ℕ) (w : World S)
      → IsWritable (w.cells p)
      → set_error json err p w ≡ (Outcome.done tt, map_cell (marked err) p w)
  unfolding set_error
  set_error_lem none p w h = set_metadata_lem p has_error_metadata_key "0" w h
  set_error_lem (some e) p w h =
      set_metadata_then p error_metadata_key (json.error_text e)
        (set_metadata p has_error_metadata_key "1") w h
      ∙ set_metadata_lem p has_error_metadata_key "1"
          (map_cell (written error_metadata_key (json.error_text e)) p w)
          (written_at error_metadata_key (json.error_text e) p w h).0
      ∙ ap (λ v. (Outcome.done tt, v))
          (map_cell-map_cell (written error_metadata_key (json.error_text e))
            (written has_error_metadata_key "1") p w)

  -- What a reply to `err` with the payload `b` has.
  pub record IsReply (err : Option Err) (b : List ℕ) (m : Message) : Type 0 where
    pub writable : IsWritable m
    pub payload : m.payload ≡ b
    pub error : reply_error json m ≡ sent_error err

  IsReply-marked :
      (err : Option Err) (b : List ℕ) (uuid : String)
      → IsReply err b (record (marked err (new_message uuid [])) { payload = b })
  unfolding new_message reply_error Headers.get lookup insert
  IsReply-marked none b uuid = record { writable = λ e. cc; payload = refl; error = refl }
  IsReply-marked (some e) b uuid = record { writable = λ e. cc; payload = refl; error = refl }

  -- MarshalReply from where there is a UUID
  filled : Option Err → Result (List ℕ) → String → M S (Result ℕ)
  filled err r uuid = do
    msg ← alloc (new_message uuid [])
    set_error json err msg
    with_payload json msg r

  allocated : String → World S → World S
  allocated uuid w = record w {
    cells = update w.cells w.next (new_message uuid []);
    next = w.next + 1;
  }

  filled_lem :
      (err : Option Err) (r : Result (List ℕ)) (uuid : String) (w : World S)
      → filled err r uuid w
        ≡ with_payload json w.next r (map_cell (marked err) w.next (allocated uuid w))
  unfolding filled alloc allocated new_message
  filled_lem err r uuid w =
      >>=-done (set_error json err w.next) (λ _. with_payload json w.next r)
        (set_error_lem err w.next (allocated uuid w) (λ e. ground (arith, =ℕ_refl w.next)))

  -- the message that a result points to
  picked : Outcome (Result ℕ) × World S → Message
  picked (Outcome.done (Result.ok p), w) = w.cells p
  picked (o, w) = w.cells 0

  filled_parts :
      (err : Option Err) (r : Result (List ℕ)) (uuid : String) (w w1 : World S) (msg : ℕ)
      → with_payload json w.next r (map_cell (marked err) w.next (allocated uuid w))
        ≡ (Outcome.done (Result.ok msg), w1)
      → (b : List ℕ) × (r ≡ Result.ok b) × IsReply err b (w1.cells msg)
  unfolding with_payload set_payload on_message allocated picked
  filled_parts err (Result.fail e) uuid w w1 msg h = cc
  filled_parts err (Result.ok b) uuid w w1 msg h = (
    b,
    refl,
    subst (λ m. IsReply err b m) (made ∙ ap (λ t. picked t) h) (IsReply-marked err b uuid),
  )
    where
      made :
          record (marked err (new_message uuid [])) { payload = b }
          ≡ picked (
              with_payload json w.next
                (Result.ok b)
                (map_cell (marked err) w.next (allocated uuid w)))
      made = ground (arith, =ℕ_refl w.next)

-- What MarshalReply has made, if it has made a message.
pub marshal_json_reply-IsReply :
    {S V R : Type 0} (json : ReplyJson S R) (params : ProcessedParams V R) (w w1 : World S)
    (msg : ℕ)
    → marshal_json_reply json params w ≡ (Outcome.done (Result.ok msg), w1)
    → (b : List ℕ) × (json.marshal params.handler_result ≡ Result.ok b)
      × IsReply json params.handle_err b (w1.cells msg)
unfolding marshal_json_reply filled
marshal_json_reply-IsReply json params w w1 msg h =
    let r = json.marshal params.handler_result in
    let (uuid, e, f) =
      >>=_parts json.new_uuid (filled json params.handle_err r) w w1 (Result.ok msg) h in
    filled_parts json params.handle_err r uuid (json.new_uuid w).1 w1 msg
      (sym (filled_lem json params.handle_err r uuid (json.new_uuid w).1) ∙ f)
