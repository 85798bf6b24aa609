-- ===== src/Router/Settlement.antt =====
-- What handleMessage leaves of its message.
use watermill.Prelude.{
  ℕ, ◌-◌, ◌<◌, Bool, not, if◌then◌else◌, Option, none, some, List, ◌≡◌, refl, sym, ap, subst, ◌∙◌,
  arith,
}
use watermill.Go.{Err, Outcome, pure, recover_by, defer_call, ◌>>=◌, ◌>>◌}
use watermill.Message.Defs.{Message}
use watermill.Message.Ack.{Call, is_sent, is_ack, is_nack, ack, nack, call}
use watermill.Message.Settlement.{IsConsistent, settled, first_call}
use watermill.Runtime.{World, M, update, on_message, ack_message, nack_message, done_running}
use watermill.PubSub.{HandlerFunc}
use watermill.Router.Defs.{Handler}
use watermill.Router.Handling.{
  handle_message, after_handler, settle, add_handler_context, publish_produced_messages,
}

-- A message after a call of Ack or Nack: the first settlement stays.
abbrev pub after : Call → Message → Message
after c m = if is_sent m.ack_sent_type then m else settled c m

call-after :
    (c : Call) (m : Message)
    → IsConsistent m
    → (b : Bool) × (call c m ≡ (Outcome.done b, after c m))
unfolding ack nack
call-after Call.acks m v = (not (is_nack m.ack_sent_type), ground (arith, first_call Call.acks m v))
call-after Call.nacks m v =
    (not (is_ack m.ack_sent_type), ground (arith, first_call Call.nacks m v))

module _ {S : Type 0} where
  abbrev pub settle_at : Call → ℕ → World S → World S
  settle_at c p w = record w { cells = update w.cells p (after c (w.cells p)) }

  pub ack_message_lem :
      (p : ℕ) (w : World S)
      → IsConsistent (w.cells p)
      → ack_message p w ≡ (Outcome.done tt, settle_at Call.acks p w)
  unfolding ack_message on_message
  ack_message_lem p w v = let (b, e) = call-after Call.acks (w.cells p) v in rw (e, on_message) refl

  nack_message_lem :
      (p : ℕ) (w : World S)
      → IsConsistent (w.cells p)
      → nack_message p w ≡ (Outcome.done tt, settle_at Call.nacks p w)
  unfolding nack_message on_message
  nack_message_lem p w v = ground (arith, call-after Call.nacks (w.cells p) v)

module _ {S : Type 0} (h : Handler S) where
  -- What comes of a message up to its settlement: `none` if the handler function returned no error
  -- and its messages were published.
  attempt_after : List ℕ × Option Err → M S (Option Err)
  attempt_after (produced, some e) = pure (some e)
  attempt_after (produced, none) = do
    add_handler_context h produced
    publish_produced_messages h produced

  unfoldable pub attempt : HandlerFunc S → ℕ → M S (Option Err)
  unfolding attempt_after
  attempt handler msg = do out ← handler msg; attempt_after out

-- Ack for a success, Nack for an error and for a panic.
abbrev pub verdict : Outcome (Option Err) → Call
verdict (Outcome.done none) = Call.acks
verdict _ = Call.nacks

abbrev pub drop_running : {S : Type 0} → World S → World S
drop_running w = record w { running_handlers = w.running_handlers - 1 }

module _ {S : Type 0} (h : Handler S) (handler : HandlerFunc S) (p : ℕ) where
  body : M S (Unit {0})
  body = recover_by (λ _. nack_message p) (do out ← handler p; after_handler h p out)

  body_lem :
      (w : World S)
      → IsConsistent ((attempt h handler p w).1.cells p)
      → body w ≡ (
        Outcome.done tt,
        settle_at (verdict (attempt h handler p w).0) p (attempt h handler p w).1,
      )
  unfolding body attempt attempt_after after_handler settle
  body_lem w v = ground (
    arith,
    ack_message_lem p (attempt h handler p w).1 v,
    nack_message_lem p (attempt h handler p w).1 v,
  )

  handle_message_lem : (w : World S) → handle_message h p handler w ≡ defer_call done_running body w
  unfolding handle_message body
  handle_message_lem w = refl

  -- An attempt to handle a message has ended in some outcome, in a world where the message's channels
  -- agree with its settlement and the running handlers are counted. Then handling the message does not
  -- panic, whatever the handler function and the publisher did. The world is that of the attempt, in
  -- which the message has got Ack if the handler function returned no error and its messages were
  -- published, and Nack if there was an error or a panic, but for a message that was settled already,
  -- which keeps its settlement; and one handler less is running.
  pub handle_message-settles :
      (out : Outcome (Option Err)) (w w' : World S)
      → attempt h handler p w ≡ (out, w')
      → IsConsistent (w'.cells p)
      → 0 < w'.running_handlers
      → handle_message h p handler w
        ≡ (Outcome.done tt, drop_running (settle_at (verdict out) p w'))
  unfolding done_running
  handle_message-settles out w w' e v r =
      handled w (subst (λ t. IsConsistent (t.1.cells p)) (sym e) v)
        (subst (λ t. 0 < t.1.running_handlers) (sym e) r)
      ∙ ap (λ t. (Outcome.done tt, drop_running (settle_at (verdict t.0) p t.1))) e
    where
      handled :
          (w : World S)
          → IsConsistent ((attempt h handler p w).1.cells p)
          → 0 < (attempt h handler p w).1.running_handlers
          → handle_message h p handler w ≡ (
            Outcome.done tt,
            drop_running
                (settle_at (verdict (attempt h handler p w).0) p (attempt h handler p w).1),
          )
      handled w v r = handle_message_lem w ∙ ground (arith, body_lem w v)
