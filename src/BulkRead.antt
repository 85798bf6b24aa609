-- ===== src/BulkRead.antt =====
-- message/subscriber/read.go. What a channel delivers is a list of arrivals, after which nothing comes
-- and the timeout passes.
use watermill.Prelude.{
  ℕ, zero, suc, ◌-◌, ltb, ltb_ℤ, ℤ, pos, negsuc, ◌=ℕ◌, String, Bool, true, false, if◌then◌else◌,
  Option, none, some, List, [], ◌∷◌, ◌++◌, append-nil, append_assoc, length, length-append, take,
  Map, lookup, insert, ◌≡◌, refl, sym, ap, ◌∙◌, arith,
}
use watermill.Go.{Outcome, pure, resume, ◌>>=◌, ◌>>◌}
use watermill.Runtime.{World, M, ack_message, for_each, read}

pub data Arrival : Type 0 where
  message : ℕ → Arrival
  closed timeout : Arrival

-- len(receivedMessages) == limit
abbrev pub is_limit : ℤ → ℕ → Bool
is_limit (pos n) len = len =ℕ n
is_limit (negsuc n) len = false

module _ {S : Type 0} where
  abbrev pub on_arrival : Arrival → List ℕ → (List ℕ → M S (List ℕ)) → M S (List ℕ)
  on_arrival (Arrival.message msg) received next = do ack_message msg; next (received ++ msg ∷ [])
  on_arrival _ received next = pure received

  -- the loop of BulkRead
  unfoldable pub bulk_loop : ℤ → List Arrival → List ℕ → M S (List ℕ)
  bulk_loop limit [] received = pure received
  bulk_loop limit (a ∷ arrivals) received =
      let next = on_arrival a received (bulk_loop limit arrivals) in
      if ltb_ℤ (pos (length received)) limit then next else pure received

  -- BulkRead
  unfoldable pub bulk_read : ℤ → List Arrival → M S (List ℕ × Bool)
  unfolding bulk_loop
  bulk_read limit arrivals = do
    received ← bulk_loop limit arrivals []
    pure (received, is_limit limit (length received))

module _ {S : Type 0} where
  -- the body of the loop of BulkReadWithDeduplication, for a message of the UUID
  abbrev pub on_unread :
      ℕ
      → String
      → Option (Unit {0})
      → List ℕ
      → Map (Unit {0})
      → (List ℕ → Map (Unit {0}) → M S (List ℕ))
      → M S (List ℕ)
  on_unread msg uuid (some _) received ids next = do ack_message msg; next received ids
  on_unread msg uuid none received ids next = do
    ack_message msg
    next (received ++ msg ∷ []) (insert uuid tt ids)

  abbrev pub on_distinct :
      Arrival → List ℕ → Map (Unit {0}) → (List ℕ → Map (Unit {0}) → M S (List ℕ)) → M S (List ℕ)
  on_distinct (Arrival.message msg) received ids next = do
    uuid ← read msg (λ m. m.uuid)
    on_unread msg uuid (lookup uuid ids) received ids next
  on_distinct _ received ids next = pure received

  distinct_loop : ℤ → List Arrival → List ℕ → Map (Unit {0}) → M S (List ℕ)
  distinct_loop limit [] received ids = pure received
  distinct_loop limit (a ∷ arrivals) received ids =
      let next = on_distinct a received ids (distinct_loop limit arrivals) in
      if ltb_ℤ (pos (length received)) limit then next else pure received

  -- BulkReadWithDeduplication
  unfoldable pub bulk_read_with_deduplication : ℤ → List Arrival → M S (List ℕ × Bool)
  unfolding distinct_loop
  bulk_read_with_deduplication limit arrivals = do
    received ← distinct_loop limit arrivals [] []
    pure (received, is_limit limit (length received))

-- the messages that come before the channel is closed or the timeout passes
abbrev pub before_stop : List Arrival → List ℕ
before_stop [] = []
before_stop (Arrival.message msg ∷ arrivals) = msg ∷ before_stop arrivals
before_stop (_ ∷ arrivals) = []

-- the number of messages that a limit lets through
abbrev pub at_most : ℤ → ℕ
at_most (pos n) = n
at_most (negsuc n) = 0

has_room : (limit : ℤ) (len n : ℕ) → at_most limit - len ≡ n → ltb_ℤ (pos len) limit ≡ ltb 0 n
has_room (pos m) len n e = ground arith
has_room (negsuc m) len n e = ground arith

has_room_suc : (limit : ℤ) (len n : ℕ) → at_most limit - len ≡ suc n → ltb_ℤ (pos len) limit ≡ true
has_room_suc (pos m) len n e = ground arith
has_room_suc (negsuc m) len n e = ground arith

take_nil : (n : ℕ) → take {A = ℕ} n [] ≡ []
take_nil zero = refl
take_nil (suc n) = refl

module _ {S : Type 0} where
  -- acknowledge the messages, and return them behind those that were there
  abbrev pub acknowledged : List ℕ → List ℕ → M S (List ℕ)
  acknowledged received msgs = do for_each ack_message msgs; pure (received ++ msgs)

  resume_assoc :
      {B : Type 0} (out : Outcome (Unit {0})) (k : M S (Unit {0})) (p : M S B) (w : World S)
      → resume (resume out (λ _. k) w).0 (λ _. p) (resume out (λ _. k) w).1
        ≡ resume out (λ _. (k >> p)) w
  resume_assoc (Outcome.done _) k p w = refl
  resume_assoc (Outcome.panics q) k p w = refl

  resume-pure :
      {A B : Type 0} (out : Outcome (Unit {0})) (a : A) (f : A → M S B) (w : World S)
      → resume (resume out (λ _. pure a) w).0 f (resume out (λ _. pure a) w).1
        ≡ resume out (λ _. f a) w
  resume-pure (Outcome.done _) a f w = refl
  resume-pure (Outcome.panics q) a f w = refl

  acknowledged-nil :
      (received : List ℕ) (w : World S) → pure received w ≡ acknowledged received [] w
  unfolding for_each
  acknowledged-nil received w = ap (λ r. (Outcome.done r, w)) (sym (append-nil received))

  acknowledged-cons :
      (received : List ℕ) (msg : ℕ) (msgs : List ℕ) (w : World S)
      → (ack_message msg >> acknowledged (received ++ msg ∷ []) msgs) w
        ≡ acknowledged received (msg ∷ msgs) w
  unfolding for_each
  acknowledged-cons received msg msgs w =
      ap (λ r. (ack_message msg >> (for_each ack_message msgs >> pure r)) w)
        (append_assoc received (msg ∷ []) msgs)
      ∙ sym (
          resume_assoc (ack_message msg w).0 (for_each ack_message msgs)
            (pure (received ++ msg ∷ msgs)) (ack_message msg w).1)

  resume-same :
      {B : Type 0} (out : Outcome (Unit {0})) (k p : M S B) (w : World S)
      → ((v : World S) → k v ≡ p v)
      → resume out (λ _. k) w ≡ resume out (λ _. p) w
  resume-same (Outcome.done _) k p w h = h w
  resume-same (Outcome.panics q) k p w h = refl

  bulk_loop_lem :
      (limit : ℤ) (n : ℕ) (arrivals : List Arrival) (received : List ℕ) (w : World S)
      → at_most limit - length received ≡ n
      → bulk_loop limit arrivals received w
        ≡ acknowledged received (take n (before_stop arrivals)) w
  unfolding bulk_loop
  bulk_loop_lem limit n [] received w e =
      acknowledged-nil received w ∙ ap (λ t. acknowledged received t w) (sym (take_nil n))
  bulk_loop_lem limit zero (a ∷ arrivals) received w e =
      ap (λ b. (if b then on_arrival a received (bulk_loop limit arrivals) else pure received) w)
        (has_room limit (length received) 0 e)
      ∙ acknowledged-nil received w
  bulk_loop_lem limit (suc n) (Arrival.message msg ∷ arrivals) received w e =
      let next = bulk_loop limit arrivals in
      ap (λ b. (if b then on_arrival (Arrival.message msg) received next else pure received) w)
        (has_room_suc limit (length received) n e)
      ∙ resume-same (ack_message msg w).0 (next (received ++ msg ∷ []))
          (acknowledged (received ++ msg ∷ []) (take n (before_stop arrivals)))
          (ack_message msg w).1
          (λ v.
            bulk_loop_lem limit n arrivals (received ++ msg ∷ []) v
              (omega (arith, length-append received (msg ∷ []))))
      ∙ acknowledged-cons received msg (take n (before_stop arrivals)) w
  bulk_loop_lem limit (suc n) (Arrival.closed ∷ arrivals) received w e =
      ap
        (λ b.
          (if b
              then on_arrival Arrival.closed received (bulk_loop limit arrivals)
              else pure received)
            w)
        (has_room_suc limit (length received) n e)
      ∙ acknowledged-nil received w
  bulk_loop_lem limit (suc n) (Arrival.timeout ∷ arrivals) received w e =
      ap
        (λ b.
          (if b
              then on_arrival Arrival.timeout received (bulk_loop limit arrivals)
              else pure received)
            w)
        (has_room_suc limit (length received) n e)
      ∙ acknowledged-nil received w

  -- BulkRead acknowledges, in order, the messages that come before the channel is closed or the timeout
  -- passes, up to the limit, and returns just these, and whether they are as many as the limit.
  pub bulk_read_lem :
      (limit : ℤ) (arrivals : List Arrival) (w : World S)
      → let msgs = take (at_most limit) (before_stop arrivals) in
        bulk_read limit arrivals w
        ≡ (do for_each ack_message msgs; pure (msgs, is_limit limit (length msgs))) w
  unfolding bulk_read
  bulk_read_lem limit arrivals w =
      ap (λ t. resume t.0 (λ received. pure (received, is_limit limit (length received))) t.1)
        (bulk_loop_lem limit (at_most limit) arrivals [] w (omega arith))
      ∙ resume-pure (for_each ack_message (take (at_most limit) (before_stop arrivals)) w).0
          (take (at_most limit) (before_stop arrivals))
          (λ received. pure (received, is_limit limit (length received)))
          (for_each ack_message (take (at_most limit) (before_stop arrivals)) w).1
