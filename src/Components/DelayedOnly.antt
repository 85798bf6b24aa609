-- ===== src/Components/DelayedOnly.antt =====
-- components/delay/publisher.go: what reaches the publisher has a delay.
use watermill.Prelude.{
  not, ℤ, ℕ, String, Bool, true, false, ◌==◌, eq_iff, eq_refl, if◌then◌else◌, Option, none, some,
  ◌≡◌, ◌≢◌, sym, ap, ◌∙◌, arith, inl, inr, Bool-cases, Option-cases, false≢true, =ℕ_refl,
}
use watermill.Go.{Err, Outcome, Result, Delay, CtxKey, CtxValue, ctx_value, pure, ◌>>◌, >>=_parts}
use watermill.Message.Headers
use watermill.Message.Defs.{context_of}
use watermill.Runtime.{World, M, set_metadata, get_metadata, message_context, read, on_message}
use watermill.Runtime.Laws.{IsWritable, written, set_metadata_lem, get-written, map_cell}
use watermill.Components.Delaying.{
  PublisherConfig, delayed_for_key, delayed_until_key, set_delay, apply_generated, apply_default,
  apply_from_context, unset_delay, apply_delay,
}

-- the text of a message's delay
abbrev pub delay_text : {S : Type 0} → ℕ → World S → String
delay_text msg w = Headers.get (w.cells msg).metadata delayed_for_key

-- what a Set has written
get-map_cell :
    {S : Type 0} (msg : ℕ) (k v : String) (w : World S)
    → IsWritable (w.cells msg)
    → Headers.get ((map_cell (written k v) msg w).cells msg).metadata k ≡ v
get-map_cell msg k v w h =
    ap (λ b. Headers.get (if b then written k v (w.cells msg) else w.cells msg).metadata k)
      (=ℕ_refl msg)
    ∙ get-written k v (w.cells msg) k h
    ∙ ap (λ b. if b then v else Headers.get (w.cells msg).metadata k) (eq_refl k)

-- a Set on the nil map does not return
set_metadata-nil :
    {S : Type 0} (msg : ℕ) (k v : String) (w w' : World S)
    → (w.cells msg).metadata ≡ none
    → set_metadata msg k v w ≡ (Outcome.done tt, w')
    → ⊥
unfolding set_metadata on_message Headers.set
set_metadata-nil msg k v w w' n e = ground arith

-- a Set that returns has written
set_metadata_sets :
    {S : Type 0} (msg : ℕ) (k v : String) (w w' : World S)
    → set_metadata msg k v w ≡ (Outcome.done tt, w')
    → Headers.get (w'.cells msg).metadata k ≡ v
set_metadata_sets msg k v w w' e = elim (Option-cases (w.cells msg).metadata) [
  | inl n ↦ absurd (set_metadata-nil msg k v w w' n e)
  | inr (es, n) ↦
      let h : IsWritable (w.cells msg) = ground arith in
      ap (λ t. Headers.get (t.1.cells msg).metadata k) (sym e ∙ set_metadata_lem msg k v w h)
      ∙ get-map_cell msg k v w h
]

abbrev is_nil : Outcome (Option Err) → Bool
is_nil (Outcome.done none) = true
is_nil _ = false

module _ {S : Type 0} (format_time : ℕ → String) (format_duration : ℤ → String)
    (config : PublisherConfig S) (topic : String) (msg : ℕ) where
  set_delay_sets :
      (delay : Delay) (w w' : World S)
      → set_delay format_time format_duration msg delay w ≡ (Outcome.done tt, w')
      → delay_text msg w' ≡ format_duration delay.duration
  unfolding set_delay
  set_delay_sets delay w w' e =
      let (_, _, f) =
        >>=_parts (set_metadata msg delayed_until_key (format_time delay.time))
          (λ _. set_metadata msg delayed_for_key (format_duration delay.duration)) w w' tt e in
      set_metadata_sets msg delayed_for_key (format_duration delay.duration) _ w' f

  -- the end of each branch that sets a delay
  abbrev then_none : M S (Unit {0}) → M S (Option Err)
  then_none m = do m; pure none

  set_delay-text :
      ((d : ℤ) → format_duration d ≢ "")
      → (delay : Delay) (w w' : World S)
      → then_none (set_delay format_time format_duration msg delay) w ≡ (Outcome.done none, w')
      → delay_text msg w' ≢ ""
  set_delay-text texts delay w w' e h =
      let m = set_delay format_time format_duration msg delay in
      let (_, out, f) = >>=_parts m (λ _. pure none) w w' none e in
      let r : m w ≡ (Outcome.done tt, w') =
        ap (λ o. (o, (m w).1)) out ∙ ap (λ t. (Outcome.done tt, t.1)) f in
      texts delay.duration (sym (set_delay_sets delay w w' r) ∙ h)

  generated-text :
      ((d : ℤ) → format_duration d ≢ "")
      → (r : Result Delay) (w w' : World S)
      → apply_generated format_time format_duration msg r w ≡ (Outcome.done none, w')
      → delay_text msg w' ≢ ""
  generated-text texts (Result.fail err) w w' e = absurd (false≢true (ap (λ t. is_nil t.0) e))
  generated-text texts (Result.ok delay) w w' e = set_delay-text texts delay w w' e

  default-text :
      ((d : ℤ) → format_duration d ≢ "")
      → config.allow_no_delay ≡ false
      → (generator : Option (String → ℕ → M S (Result Delay))) (w w' : World S)
      → apply_default format_time format_duration config topic msg generator w
        ≡ (Outcome.done none, w')
      → delay_text msg w' ≢ ""
  default-text texts never none w w' e = absurd (
      false≢true (
        ap
          (λ b.
            is_nil
              ((if not b
                  then pure (some (Err.new "message doesn't have a delay set"))
                  else pure none)
                w).0)
          (sym never)
        ∙ ap (λ t. is_nil t.0) e))
  default-text texts never (some generator) w w' e =
      let (r, _, f) =
        >>=_parts (generator topic msg) (apply_generated format_time format_duration msg) w w' none
          e in
      generated-text texts r (generator topic msg w).1 w' f

  context-text :
      ((d : ℤ) → format_duration d ≢ "")
      → config.allow_no_delay ≡ false
      → (value : Option CtxValue) (w w' : World S)
      → apply_from_context format_time format_duration config topic msg value w
        ≡ (Outcome.done none, w')
      → delay_text msg w' ≢ ""
  context-text texts never none w w' e =
      default-text texts never config.default_delay_generator w w' e
  context-text texts never (some (CtxValue.delay_of delay)) w w' e =
      set_delay-text texts delay w w' e
  context-text texts never (some (CtxValue.text s)) w w' e =
      absurd (false≢true (ap (λ t. is_nil t.0) e))
  context-text texts never (some (CtxValue.message p)) w w' e =
      absurd (false≢true (ap (λ t. is_nil t.0) e))

  -- A message for a publisher that does not allow messages without a delay: if applyDelay returns
  -- without an error, the message's metadata have a delay, whether it had one before, its context had
  -- one, or the generator made one. The texts of durations are not empty.
  pub apply_delay_sets :
      (w w' : World S)
      → ((d : ℤ) → format_duration d ≢ "")
      → config.allow_no_delay ≡ false
      → apply_delay format_time format_duration config topic msg w ≡ (Outcome.done none, w')
      → delay_text msg w' ≢ ""
  unfolding apply_delay get_metadata message_context read
  apply_delay_sets w w' texts never e =
      let value = ctx_value (context_of (w.cells msg)) CtxKey.delay in
      let branch : Bool → M S (Option Err) = λ b.
        if not b then pure none else unset_delay format_time format_duration config topic msg in
      elim (Bool-cases (delay_text msg w == "")) [
        | inl empty ↦ context-text texts never value w w' (sym (ap (λ b. branch b w) empty) ∙ e)
        | inr full ↦
            let same : w ≡ w' = ap (λ t. t.1) (sym (ap (λ b. branch b w) full) ∙ e) in
            λ h.
              false≢true
                (sym full ∙ (eq_iff (delay_text msg w) "").1 (ap (delay_text msg) same ∙ h))
      ]
