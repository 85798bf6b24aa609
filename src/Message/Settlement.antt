-- ===== src/Message/Settlement.antt =====
-- How Ack and Nack settle a message.
use watermill.Prelude.{ℕ, String, Bool, true, false, List, [], ◌∷◌, map, ◌≡◌, ◌≢◌, refl, arith}
use watermill.Go.{Outcome, Chan, close_chan}
use watermill.Message.Defs.{Message, AckType, new_message}
use watermill.Message.Ack.{ack, nack, Call, call, run_calls}

-- The channel that is closed is the one of the settlement that was sent.
abbrev Agrees : AckType → Chan → Chan → Type 0
Agrees AckType.no_ack_sent a n = (a ≢ Chan.closed_chan) × (n ≢ Chan.closed_chan)
Agrees AckType.ack a n = (a ≡ Chan.closed_chan) × (n ≢ Chan.closed_chan)
Agrees AckType.nack a n = (a ≢ Chan.closed_chan) × (n ≡ Chan.closed_chan)

abbrev pub IsConsistent : Message → Type 0
IsConsistent m = Agrees m.ack_sent_type m.ack m.no_ack

abbrev pub same_call : Call → Call → Bool
same_call Call.acks Call.acks = true
same_call Call.nacks Call.nacks = true
same_call _ _ = false

-- The message as the call settles it: its type is sent and its channel is closed.
abbrev pub settled : Call → Message → Message
settled Call.acks m = record m { ack_sent_type = AckType.ack; ack = Chan.closed_chan }
settled Call.nacks m = record m { ack_sent_type = AckType.nack; no_ack = Chan.closed_chan }

pub settled-IsConsistent :
    (c : Call) (m : Message)
    → IsConsistent m
    → m.ack_sent_type ≡ AckType.no_ack_sent
    → IsConsistent (settled c m)
settled-IsConsistent Call.acks m v u = ground arith
settled-IsConsistent Call.nacks m v u = ground arith

pub first_call :
    (c : Call) (m : Message)
    → IsConsistent m
    → m.ack_sent_type ≡ AckType.no_ack_sent
    → call c m ≡ (Outcome.done true, settled c m)
unfolding ack nack close_chan
first_call Call.acks m v u = ground arith
first_call Call.nacks m v u = ground arith

pub later_call :
    (c d : Call) (m : Message) → call d (settled c m) ≡ (Outcome.done (same_call c d), settled c m)
unfolding ack nack
later_call Call.acks Call.acks m = refl
later_call Call.acks Call.nacks m = refl
later_call Call.nacks Call.acks m = refl
later_call Call.nacks Call.nacks m = refl

later_calls :
    (c : Call) (cs : List Call) (m : Message)
    → run_calls cs (settled c m) ≡ (Outcome.done (map (same_call c) cs), settled c m)
unfolding run_calls
later_calls c [] m = refl
later_calls c (d ∷ cs) m = ground (arith, later_call c d m, later_calls c cs m)

same_call_self : (c : Call) → same_call c c ≡ true
same_call_self Call.acks = refl
same_call_self Call.nacks = refl

pub new_message-IsConsistent :
    (uuid : String) (payload : List ℕ) → IsConsistent (new_message uuid payload)
unfolding new_message
new_message-IsConsistent uuid payload = ground arith

-- On a fresh message, whatever the calls of Ack and Nack: none panics, the first decides, each
-- returns whether it is of the kind of the first, and just that kind's channel is closed.
pub first_call_decides :
    (c : Call) (cs : List Call) (m : Message)
    → IsConsistent m
    → m.ack_sent_type ≡ AckType.no_ack_sent
    → (run_calls (c ∷ cs) m ≡ (Outcome.done (map (same_call c) (c ∷ cs)), settled c m))
      × IsConsistent (settled c m)
unfolding run_calls
first_call_decides c cs m v u = (
  ground (arith, first_call c m v u, later_calls c cs m, same_call_self c),
  settled-IsConsistent c m v u,
)
