-- ===== src/GoChannel/Copies.antt =====
-- The copies that a delivery sends, and where it stands by what it has sent.
use watermill.Prelude.{
  lookup, true, false, List, [], ◌∷◌, All, ◌≡◌, refl, sym, ap, ◌∙◌, ◌⊎◌, arith, ℕ,
}
use watermill.Go.{Chan, close_chan}
use watermill.Message.Headers.{entries}
use watermill.Message.Defs.{Message, AckType, set_context}
use watermill.Message.Ack.{Call, call, ack, nack}
use watermill.Message.Settlement.{IsConsistent}
use watermill.Message.Equality.{SameContent, IsWellFormed, copy_lem}
use watermill.GoChannel.Delivery.{Subscriber, Delivery, msg_to_send}

abbrev pub IsNacked : Message → Type 0
IsNacked m = m.ack_sent_type ≡ AckType.nack

abbrev pub IsAcked : Message → Type 0
IsAcked m = m.ack_sent_type ≡ AckType.ack

-- the messages before the latest one have been nacked
abbrev pub NackedBefore : List Message → Type 0
NackedBefore [] = Unit
NackedBefore (m ∷ ms) = All IsNacked ms

-- Where the delivery stands, by what has been sent, the latest message first.
abbrev pub Agrees : Delivery → List Message → Type 0
Agrees Delivery.sending sent = All IsNacked sent
Agrees (Delivery.waiting m) sent = (ms : List Message) × (sent ≡ m ∷ ms) × All IsNacked ms
Agrees (Delivery.acked m) sent = (ms : List Message) × (sent ≡ m ∷ ms) × IsAcked m × All IsNacked ms
Agrees Delivery.holding sent = All IsNacked sent
Agrees Delivery.discarded sent = NackedBefore sent
Agrees Delivery.panicked sent = ⊥

-- a copy of the message, with a settlement of its own
abbrev pub IsCopy : Message → Message → Type 0
IsCopy msg m = SameContent msg m × IsConsistent m

-- The output channel is open until the subscriber is closed, and that is after `closing`.
abbrev pub IsOrdered : Subscriber → Type 0
IsOrdered s =
    ((s.closed ≡ true) ⊎ (s.output_channel ≡ Chan.open_chan))
    × ((s.closed ≡ false) ⊎ (s.closing ≡ Chan.closed_chan))

call-IsConsistent : (c : Call) (m : Message) → IsConsistent m → IsConsistent (call c m).1
unfolding ack nack close_chan
call-IsConsistent Call.acks m v = ground arith
call-IsConsistent Call.nacks m v = ground arith

call-content :
    (c : Call) (m : Message)
    → ((call c m).1.uuid ≡ m.uuid)
      × ((call c m).1.payload ≡ m.payload)
      × ((call c m).1.metadata ≡ m.metadata)
unfolding ack nack close_chan
call-content Call.acks m = (ground arith, ground arith, ground arith)
call-content Call.nacks m = (ground arith, ground arith, ground arith)

pub call-IsCopy : (c : Call) (msg m : Message) → IsCopy msg m → IsCopy msg (call c m).1
call-IsCopy c msg m (s, v) =
    let (eu, ep, em) = call-content c m in
    (
      record {
        uuid = s.uuid ∙ sym eu;
        payload = s.payload ∙ sym ep;
        metadata = λ k. s.metadata k ∙ ap (λ md. lookup k (entries md)) (sym em);
      },
      call-IsConsistent c m v,
    )

pub msg_to_send-IsCopy :
    (n : ℕ) (s : Subscriber) (msg : Message) → IsWellFormed msg → IsCopy msg (msg_to_send n s msg)
unfolding msg_to_send set_context
msg_to_send-IsCopy n s msg w =
    let (same, _, _, _, _, v) = copy_lem msg w in
    (record { uuid = same.uuid; payload = same.payload; metadata = same.metadata }, v)

-- A delivery discards its message only when the subscriber is closing.
abbrev pub Ended : Delivery → Chan → Type 0
Ended Delivery.discarded closing = closing ≡ Chan.closed_chan
Ended _ closing = Unit

pub closed-Ended : (d : Delivery) → Ended d Chan.closed_chan
closed-Ended Delivery.sending = tt
closed-Ended Delivery.holding = tt
closed-Ended (Delivery.waiting m) = tt
closed-Ended (Delivery.acked m) = tt
closed-Ended Delivery.discarded = refl
closed-Ended Delivery.panicked = tt
