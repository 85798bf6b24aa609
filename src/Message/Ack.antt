-- ===== src/Message/Ack.antt =====
-- message/message.go: Ack and Nack. Both hold the message's mutex throughout, so concurrent calls
-- are a sequence of calls.
use watermill.Prelude.{Bool, true, false, if◌then◌else◌, List, [], ◌∷◌}
use watermill.Go.{Outcome, Go, Chan, close_chan, resume, ◌>>=◌, pure}
use watermill.Message.Defs.{Message, AckType}

abbrev pub is_ack : AckType → Bool
is_ack AckType.ack = true
is_ack _ = false

abbrev pub is_nack : AckType → Bool
is_nack AckType.nack = true
is_nack _ = false

abbrev pub is_sent : AckType → Bool
is_sent AckType.no_ack_sent = false
is_sent _ = true

-- `if ch == nil { ch = closedchan } else { close(ch) }`
close_or_set : Chan → Outcome Chan
unfolding close_chan
close_or_set Chan.nil_chan = Outcome.done Chan.closed_chan
close_or_set ch = close_chan ch

close_ack : Go Message Bool
unfolding close_or_set
close_ack m = resume (close_or_set m.ack) (λ ch s. (Outcome.done true, record s { ack = ch })) m

close_no_ack : Go Message Bool
unfolding close_or_set
close_no_ack m =
    resume (close_or_set m.no_ack) (λ ch s. (Outcome.done true, record s { no_ack = ch })) m

-- Ack
unfoldable pub ack : Go Message Bool
unfolding close_ack
ack m =
    if is_nack m.ack_sent_type
    then (Outcome.done false, m)
    else if is_sent m.ack_sent_type
    then (Outcome.done true, m)
    else close_ack (record m { ack_sent_type = AckType.ack })

-- Nack
unfoldable pub nack : Go Message Bool
unfolding close_no_ack
nack m =
    if is_ack m.ack_sent_type
    then (Outcome.done false, m)
    else if is_sent m.ack_sent_type
    then (Outcome.done true, m)
    else close_no_ack (record m { ack_sent_type = AckType.nack })

-- Acked
unfoldable pub acked : Message → Chan
acked m = m.ack

-- Nacked
unfoldable pub nacked : Message → Chan
nacked m = m.no_ack

pub data Call : Type 0 where
  acks nacks : Call

abbrev pub call : Call → Go Message Bool
call Call.acks = ack
call Call.nacks = nack

-- Any number of goroutines call Ack and Nack on one message.
unfoldable pub run_calls : List Call → Go Message (List Bool)
run_calls [] = pure []
run_calls (c ∷ cs) = do b ← call c; bs ← run_calls cs; pure (b ∷ bs)
