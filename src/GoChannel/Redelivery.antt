-- ===== src/GoChannel/Redelivery.antt =====
-- What the deliveries of pubsub/gochannel/pubsub.go promise to a consumer.
use watermill.Prelude.{
  false, List, [], ◌∷◌, All, ◌≡◌, ◌≢◌, refl, sym, ap, ◌∙◌, subst, inl, inr, arith, ℕ,
}
use watermill.Go.{Chan}
use watermill.Message.Defs.{Message}
use watermill.Message.Settlement.{IsConsistent}
use watermill.Message.Equality.{IsWellFormed}
use watermill.GoChannel.Delivery.{Subscriber, Delivery, Step, Reachable, msg_to_send, send_on}
use watermill.GoChannel.Copies.{
  IsNacked, IsAcked, NackedBefore, Agrees, IsCopy, IsOrdered, call-IsCopy, msg_to_send-IsCopy,
  Ended, closed-Ended,
}

record Holds (msg : Message) (s : Subscriber) (d : Delivery) : Type 0 where
  copies : All (IsCopy msg) s.sent
  agrees : Agrees d s.sent
  ordered : IsOrdered s
  ended : Ended d s.closing
  -- the subscriber stays open as long as the delivery holds the lock
  open_if_held : d ≡ Delivery.holding → s.closed ≡ false

acked_lem : (m : Message) → IsConsistent m → m.ack ≡ Chan.closed_chan → IsAcked m
acked_lem m v h = ground arith

nacked_lem : (m : Message) → IsConsistent m → m.no_ack ≡ Chan.closed_chan → IsNacked m
nacked_lem m v h = ground arith

tail : List Message → List Message
tail [] = []
tail (m ∷ ms) = ms

same_tail :
    (sent ms ms' : List Message) (m m' : Message) → sent ≡ m ∷ ms → sent ≡ m' ∷ ms' → ms ≡ ms'
unfolding tail
same_tail sent ms ms' m m' e e' = ap tail (sym e ∙ e')

IsNacked-after :
    (sent ms : List Message) (m : Message)
    → sent ≡ m ∷ ms
    → IsNacked m
    → All IsNacked ms
    → All IsNacked sent
IsNacked-after sent ms m e h hs = subst (All IsNacked) (sym e) (h, hs)

nacked_before : (sent : List Message) → All IsNacked sent → NackedBefore sent
nacked_before [] h = tt
nacked_before (m ∷ ms) h = h.1

module _ (n : ℕ) (msg : Message) (fine : IsWellFormed msg) where
  head-IsCopy :
      (sent ms : List Message) (m : Message)
      → sent ≡ m ∷ ms
      → All (IsCopy msg) sent
      → IsCopy msg m × All (IsCopy msg) ms
  head-IsCopy sent ms m e h = subst (All (IsCopy msg)) e h

  -- a send on an open channel
  send_on-Holds :
      (s : Subscriber) (c : Chan)
      → c ≡ Chan.open_chan
      → Holds msg s Delivery.holding
      → Holds msg (send_on c (msg_to_send n s msg) s).0 (send_on c (msg_to_send n s msg) s).1
  unfolding send_on
  send_on-Holds s Chan.open_chan e h = record {
    copies = (msg_to_send-IsCopy n s msg fine, h.copies);
    agrees = (s.sent, refl, h.agrees);
    ordered = h.ordered;
    ended = tt;
    open_if_held = λ f. cc;
  }
  send_on-Holds s Chan.closed_chan e h = cc
  send_on-Holds s Chan.nil_chan e h = cc

  Step-Holds :
      (s s' : Subscriber) (d d' : Delivery) → Step n msg s d s' d' → Holds msg s d → Holds msg s' d'
  Step-Holds s _ _ _ (Step.finds_closed _ c) h = record {
    copies = h.copies;
    agrees = nacked_before s.sent h.agrees;
    ordered = h.ordered;
    ended = ground (arith, h.ordered);
    open_if_held = λ f. cc;
  }
  Step-Holds s _ _ _ (Step.finds_open _ c) h = record {
    copies = h.copies;
    agrees = h.agrees;
    ordered = h.ordered;
    ended = tt;
    open_if_held = λ _. c;
  }
  Step-Holds s _ _ _ (Step.sends _) h =
      send_on-Holds s s.output_channel (ground (arith, h.ordered, h.open_if_held refl)) h
  Step-Holds s _ _ _ (Step.gives_up _ c) h = record {
    copies = h.copies;
    agrees = nacked_before s.sent h.agrees;
    ordered = h.ordered;
    ended = c;
    open_if_held = λ f. cc;
  }
  Step-Holds s _ _ _ (Step.stops_waiting _ m c) h =
      let (ms, e, hs) = h.agrees in
      record {
        copies = h.copies;
        agrees = subst NackedBefore (sym e) hs;
        ordered = h.ordered;
        ended = c;
        open_if_held = λ f. cc;
      }
  Step-Holds s _ _ _ (Step.gets_ack _ m c) h =
      let (ms, e, hs) = h.agrees in
      let ((_, v), _) = head-IsCopy s.sent ms m e h.copies in
      record {
        copies = h.copies;
        agrees = (ms, e, acked_lem m v c, hs);
        ordered = h.ordered;
        ended = tt;
        open_if_held = λ f. cc;
      }
  Step-Holds s _ _ _ (Step.gets_nack _ m c) h =
      let (ms, e, hs) = h.agrees in
      let ((_, v), _) = head-IsCopy s.sent ms m e h.copies in
      record {
        copies = h.copies;
        agrees = IsNacked-after s.sent ms m e (nacked_lem m v c) hs;
        ordered = h.ordered;
        ended = tt;
        open_if_held = λ f. cc;
      }
  Step-Holds s _ _ _ (Step.consumer_calls _ c m ms e) h =
      let (ms', e', hs) = h.agrees in
      let (v, vs) = head-IsCopy s.sent ms m e h.copies in
      record {
        copies = (call-IsCopy c msg m v, vs);
        agrees = (ms, refl, subst (All IsNacked) (same_tail s.sent ms' ms m m e' e) hs);
        ordered = h.ordered;
        ended = tt;
        open_if_held = λ f. cc;
      }
  Step-Holds s _ d _ (Step.begins_close _ _ o c) h = record {
    copies = h.copies;
    agrees = h.agrees;
    ordered = (h.ordered.0, inr refl);
    ended = closed-Ended d;
    open_if_held = h.open_if_held;
  }
  Step-Holds s _ d _ (Step.ends_close _ _ ne c o) h = record {
    copies = h.copies;
    agrees = h.agrees;
    ordered = (inl refl, inr c);
    ended = h.ended;
    open_if_held = λ f. absurd (ne f);
  }

  Reachable-Holds :
      (s s' : Subscriber) (d : Delivery)
      → Holds msg s Delivery.sending
      → Reachable n msg s s' d
      → Holds msg s' d
  Reachable-Holds s _ _ h Reachable.start = h
  Reachable-Holds s _ _ h (Reachable.next s' s'' d d' r st) =
      Step-Holds s' s'' d d' st (Reachable-Holds s s' d h r)

-- a subscriber as Subscribe makes it
abbrev pub IsNew : Subscriber → Type 0
IsNew s = (s.sent ≡ []) × (s.closed ≡ false) × (s.output_channel ≡ Chan.open_chan)

-- A delivery to a new subscriber, whatever the consumer, the subscriber's Close and the delivery have
-- done so far: every message that was sent is a copy of the published one with the same content; each
-- but the latest has been nacked, the latest too if the delivery is about to send again; the delivery
-- has returned with an acknowledgement only if the latest was acked, and without one only after
-- the subscriber began to close; and it has not panicked by sending on the output channel when that
-- was closed.
pub delivered_until_ack :
    (n : ℕ) (msg : Message) (s s' : Subscriber) (d : Delivery)
    → IsWellFormed msg
    → IsNew s
    → Reachable n msg s s' d
    → All (IsCopy msg) s'.sent × Agrees d s'.sent × Ended d s'.closing × (d ≢ Delivery.panicked)
delivered_until_ack n msg s s' d fine (e, c, o) r =
    let h0 : Holds msg s Delivery.sending = record {
      copies = subst (All (IsCopy msg)) (sym e) tt;
      agrees = subst (All IsNacked) (sym e) tt;
      ordered = (inr o, inl c);
      ended = tt;
      open_if_held = λ f. cc;
    } in
    let h = Reachable-Holds n msg fine s s' d h0 r in
    (h.copies, h.agrees, h.ended, λ f. subst (λ x. Agrees x s'.sent) f h.agrees)
